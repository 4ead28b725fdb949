-- ===== src/Server/Served.antt =====
-- Requests in the order in which a server processed them, with their responses.
use mathlib.Core.Path.{subst}
use mathlib.Core.List.{map}
use custom_database.Prelude.{
  ℕ, ◌≡◌, ◌≢◌, refl, ap, sym, ◌∙◌, arith, List, [], ◌∷◌, ◌++◌, Result, ok, some, inl, inr, length,
  nth, nth-cases, nth-here, append-nil, ◌⊎◌, some-injective, ◌==◌, if◌then◌else◌,
}
use custom_database.Protocol.Message.{Message}
use custom_database.Server.Request.{respond}
use custom_database.Server.Spec.{Store, promise, promise_all}

-- The number of the client, its request and the response.
abbrev pub Served : Type 0
Served = ℕ × Message × Message

-- The part of one client.
abbrev pub given : ℕ → List Served → List (Message × Result Message)
given i [] = []
given i ((j, m, a) ∷ order) = if i == j then (m, ok a) ∷ given i order else given i order

pub given-mine :
    (i : ℕ) (m a : Message) (order : List Served)
    → given i (order ++ ((i, m, a) ∷ [])) ≡ given i order ++ ((m, ok a) ∷ [])
given-mine i m a [] = ground arith
given-mine i m a ((j, m', a') ∷ order) = ground (arith, given-mine i m a order)

pub given-other :
    (i j : ℕ) (m a : Message) (order : List Served)
    → i ≢ j
    → given i (order ++ ((j, m, a) ∷ [])) ≡ given i order
given-other i j m a [] other = ground arith
given-other i j m a ((k, m', a') ∷ order) other = ground (arith, given-other i j m a order other)

-- What holds of each of several things with its client's part, once it holds of the one that has
-- changed, behind `before`.
each-changed :
    {A : Type 0} (P : List (Message × Result Message) → A → Type 0) (order order' : List Served)
    {things : List A} (before after : List A) (v v' : A)
    → things ≡ before ++ (v ∷ after)
    → ((i : ℕ) → i ≢ length before → given i order' ≡ given i order)
    → ((i : ℕ) (u : A) → nth i things ≡ some u → P (given i order) u)
    → P (given (length before) order') v'
    → (i : ℕ) (u : A) → nth i (before ++ (v' ∷ after)) ≡ some u
    → P (given i order') u
each-changed P order order' before after v v' e same each mine i u there =
    elim (nth-cases i before after v v' there) [
      | inl (here, found) ↦
          let is : v' ≡ u = some-injective (sym found ∙ there) in
          subst (λ k. P (given k order') u) (sym here)
            (subst (P (given (length before) order')) is mine)
      | inr (other, found) ↦
          subst (λ g. P g u) (sym (same i other)) (each i u (ap (nth i) e ∙ found))
    ]

-- The responses, and the map in the end, are what the promise gives in this order.
pub record IsPromised (store : Store) (order : List Served) (last : Store) : Type 0 where
  pub responses : map (λ r. r.2) order ≡ (promise_all (map (λ r. r.1) order) store).0
  pub last_eq : last ≡ (promise_all (map (λ r. r.1) order) store).1

promise_all-last :
    (ms : List Message) (m : Message) (store : Store)
    → let p = promise_all ms store in
      let q = promise m.type m.key m.value p.1 in
      promise_all (ms ++ (m ∷ [])) store ≡ (p.0 ++ (respond m.id q.0 ∷ []), q.1)
unfolding promise_all
promise_all-last [] m store = refl
promise_all-last (m' ∷ ms) m store =
    let (reply, next) = promise m'.type m'.key m'.value store in
    ap (λ p. (respond m'.id reply ∷ p.0, p.1)) (promise_all-last ms m next)

map-last :
    {A B : Type 0} (f : A → B) (xs : List A) (x : A)
    → map f (xs ++ (x ∷ [])) ≡ map f xs ++ (f x ∷ [])
map-last f [] x = refl
map-last f (y ∷ xs) x = ap (λ t. f y ∷ t) (map-last f xs x)

pub IsPromised-last :
    {store last last' : Store} {order : List Served} (i : ℕ) (m a : Message)
    → IsPromised store order last
    → a ≡ respond m.id (promise m.type m.key m.value last).0
    → last' ≡ (promise m.type m.key m.value last).1
    → IsPromised store (order ++ ((i, m, a) ∷ [])) last'
IsPromised-last {store} {order = order} i m a h answer after =
    let ms = map (λ r. r.1) order in
    let whole =
      ap (λ l. promise_all l store) (map-last (λ r. r.1) order (i, m, a))
      ∙ promise_all-last ms m store in
    let answer' = answer ∙ ap (λ s. respond m.id (promise m.type m.key m.value s).0) h.last_eq in
    record {
      responses =
          map-last (λ r. r.2) order (i, m, a)
          ∙ (λ x. h.responses x ++ (answer' x ∷ []))
          ∙ sym (ap (λ p. p.0) whole);
      last_eq =
          after
          ∙ ap (λ s. (promise m.type m.key m.value s).1) h.last_eq
          ∙ sym (ap (λ p. p.1) whole);
    }

-- Requests were served in this order, on a map that held `store`; each of these things stands, as `P`
-- says, with its own part of the order.
pub record IsArranged {A : Type 0} (P : List (Message × Result Message) → A → Type 0)
    (store : Store) (order : List Served) (last : Store) (things : List A) : Type 0 where
  pub promised : IsPromised store order last
  pub each : (i : ℕ) (u : A) → nth i things ≡ some u → P (given i order) u

-- What one step does to the map and to the thing that takes it: it serves no request, or one.
abbrev pub Outcome :
    {A : Type 0}
    → (List (Message × Result Message) → A → Type 0)
    → Store
    → Store
    → List (Message × Result Message)
    → A
    → Type 0
Outcome P last last' mine v =
    ((last' ≡ last) × P mine v)
    ⊎ ((m : Message) × (a : Message) × (a ≡ respond m.id (promise m.type m.key m.value last).0)
        × (last' ≡ (promise m.type m.key m.value last).1)
        × P (mine ++ ((m, ok a) ∷ [])) v)

pub stands_here :
    {A : Type 0} {P : List (Message × Result Message) → A → Type 0} {store last : Store}
    {order : List Served} {things : List A}
    → IsArranged P store order last things
    → (before after : List A) (v : A) → things ≡ before ++ (v ∷ after)
    → P (given (length before) order) v
stands_here h before after v e =
    h.each (length before) v (ap (nth (length before)) e ∙ nth-here before after v)

module _ {A : Type 0} {P : List (Message × Result Message) → A → Type 0} {store last last' : Store}
    {order : List Served} {things : List A} (h : IsArranged P store order last things)
    (before after : List A) (v v' : A) (e : things ≡ before ++ (v ∷ after)) where
  -- The thing behind `before` has taken a step.
  pub arrange :
      Outcome P last last' (given (length before) order) v'
      → (more : List Served) × IsArranged P store (order ++ more) last' (before ++ (v' ∷ after))
  arrange (inl (same, mine)) = (
    [],
    subst (λ o. IsArranged P store o last' (before ++ (v' ∷ after))) (sym (append-nil order))
        (record {
          promised = subst (IsPromised store order) (sym same) h.promised;
          each = each-changed P order order before after v v' e (λ i other. refl) h.each mine;
        }),
  )
  arrange (inr (m, a, answer, seen, mine)) =
      let i = length before in
      (
        (i, m, a) ∷ [],
        record {
          promised = IsPromised-last i m a h.promised answer seen;
          each =
              each-changed P order (order ++ ((i, m, a) ∷ [])) before after v v' e
                (λ k other. given-other k i m a order other) h.each
                (subst (λ g. P g v') (sym (given-mine i m a order)) mine);
        },
      )
