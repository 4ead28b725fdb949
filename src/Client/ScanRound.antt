-- ===== src/Client/ScanRound.antt =====
-- One round of the client's loop, at an entry of the text that the server formats.
use custom_database.Prelude.{
  ℕ, suc, ◌+◌, ◌-◌, ◌≡◌, ap, sym, ◌∙◌, arith, false, some, List, [], ◌∷◌, ◌++◌, append_assoc, Bytes,
  text, length, leb, ◌==◌, if◌then◌else◌, All, length-append,
}
use custom_database.Bytes.Find.{
  find, substr, search_from, find-append, substr-append, search_from-absent,
}
use custom_database.Table.{Entry}
use custom_database.Server.Request.{format_entry, format_entries}
use custom_database.Client.Scan.{key_mark, value_mark, quote, parse_loop}

-- Between a key and its value.
abbrev pub middle : Bytes
middle = text "\",\"value\":\""

-- What follows the quote behind a value, up to the end of the text.
abbrev pub tail_rest : List Entry → Bytes
tail_rest [] = text "}]"
tail_rest (e ∷ es) = text "}," ++ (format_entries (e ∷ es) ++ text "]")

abbrev pub tail_text : List Entry → Bytes
tail_text es = b'"' ∷ tail_rest es

pub entry_text :
    (k v : Bytes) (es : List Entry)
    → format_entries ((k, v) ∷ es) ++ text "]" ≡ key_mark ++ (k ++ (middle ++ (v ++ tail_text es)))
unfolding format_entries format_entry
entry_text k v [] = simp append_assoc
entry_text k v (e ∷ es) = simp append_assoc

abbrev pub QuoteFree : Bytes → Type 0
QuoteFree = All (λ c. (b'"' == c) ≡ false)

value_mark_second :
    (rest : Bytes) (i : ℕ) → search_from value_mark (middle ++ rest) i ≡ some (i + 2)
unfolding search_from
value_mark_second rest i = ap some (omega arith)

-- One round, at an entry whose key and value hold no quote.
module _ (front k v t : Bytes) (hk : QuoteFree k) (hv : QuoteFree v) where
  abbrev pub json : Bytes
  json = front ++ (key_mark ++ (k ++ (middle ++ (v ++ (b'"' ∷ t)))))

  abbrev pub n₀ : ℕ
  n₀ = length front

  abbrev pub front₁ : Bytes
  front₁ = front ++ key_mark

  abbrev pub front₂ : Bytes
  front₂ = front₁ ++ k

  abbrev pub front₃ : Bytes
  front₃ = front₂ ++ middle

  json₁ : json ≡ front₁ ++ (k ++ (middle ++ (v ++ (b'"' ∷ t))))
  json₁ = sym (append_assoc front key_mark _)

  json₂ : json ≡ front₂ ++ (middle ++ (v ++ (b'"' ∷ t)))
  json₂ = json₁ ∙ sym (append_assoc front₁ k _)

  json₃ : json ≡ front₃ ++ (v ++ (b'"' ∷ t))
  json₃ = json₂ ∙ sym (append_assoc front₂ middle _)

  length-front₁ : n₀ + 8 ≡ length front₁
  length-front₁ = omega (arith, length-append front key_mark)

  length-front₂ : n₀ + 8 + length k ≡ length front₂
  length-front₂ = omega (arith, length-front₁, length-append front₁ k)

  length-front₃ : n₀ + 8 + length k + 2 + 9 ≡ length front₃
  length-front₃ = omega (arith, length-front₂, length-append front₂ middle)

  find-key_end : find quote json (n₀ + 8) ≡ some (n₀ + 8 + length k)
  find-key_end =
      ap (λ s. find quote s (n₀ + 8)) json₁
      ∙ find-append quote front₁ _ (n₀ + 8) length-front₁
      ∙ search_from-absent b'"' k _ (n₀ + 8) hk

  find-value_mark : find value_mark json (n₀ + 8 + length k) ≡ some (n₀ + 8 + length k + 2)
  find-value_mark =
      ap (λ s. find value_mark s (n₀ + 8 + length k)) json₂
      ∙ find-append value_mark front₂ _ (n₀ + 8 + length k) length-front₂
      ∙ value_mark_second (v ++ (b'"' ∷ t)) (n₀ + 8 + length k)

  find-value_end :
      find quote json (n₀ + 8 + length k + 2 + 9) ≡ some (n₀ + 8 + length k + 2 + 9 + length v)
  find-value_end =
      ap (λ s. find quote s (n₀ + 8 + length k + 2 + 9)) json₃
      ∙ find-append quote front₃ _ (n₀ + 8 + length k + 2 + 9) length-front₃
      ∙ search_from-absent b'"' v t (n₀ + 8 + length k + 2 + 9) hv

  substr-key : substr json (n₀ + 8) (n₀ + 8 + length k - (n₀ + 8)) ≡ k
  substr-key =
      ap (λ s. substr s (n₀ + 8) (n₀ + 8 + length k - (n₀ + 8))) json₁
      ∙ substr-append front₁ k _ (n₀ + 8) _ length-front₁ (omega arith)

  substr-value :
      substr json
        (n₀ + 8 + length k + 2 + 9)
        (n₀ + 8 + length k + 2 + 9 + length v - (n₀ + 8 + length k + 2 + 9))
      ≡ v
  substr-value =
      ap
        (λ s.
          substr s (n₀ + 8 + length k + 2 + 9)
            (n₀ + 8 + length k + 2 + 9 + length v - (n₀ + 8 + length k + 2 + 9)))
        json₃
      ∙ substr-append front₃ v (b'"' ∷ t) (n₀ + 8 + length k + 2 + 9) _ length-front₃ (omega arith)

  -- Where the next round starts.
  abbrev pub next_pos : ℕ
  next_pos = n₀ + 8 + length k + 2 + 9 + length v

  parse_loop-round :
      (fuel limit pos : ℕ) (results : List Entry)
      → find key_mark json pos ≡ some n₀
      → parse_loop (suc fuel) json limit pos results ≡ (
          if leb limit (length (results ++ ((k, v) ∷ [])))
          then results ++ ((k, v) ∷ [])
          else parse_loop fuel json limit next_pos (results ++ ((k, v) ∷ [])))
  unfolding parse_loop
  parse_loop-round fuel limit pos results e =
      rw (e, parse_loop)
        (rw find-key_end (rw find-value_mark (rw find-value_end (rw (substr-key, substr-value)))))

  abbrev pub after : Bytes
  after = front₃ ++ v

  length-after : next_pos ≡ length after
  length-after = omega (arith, length-front₃, length-append front₃ v)

  -- The same round, stated with what is left behind the value.
  pub parse_loop-entry :
      (fuel limit pos : ℕ) (results : List Entry)
      → find key_mark json pos ≡ some n₀
      → parse_loop (suc fuel) json limit pos results ≡ (
          if leb limit (length (results ++ ((k, v) ∷ [])))
          then results ++ ((k, v) ∷ [])
          else parse_loop fuel
              (after ++ (b'"' ∷ t))
              limit
              (length after)
              (results ++ ((k, v) ∷ [])))
  parse_loop-entry fuel limit pos results e =
      parse_loop-round fuel limit pos results e
      ∙ ap
          (λ m.
            if leb limit (length (results ++ ((k, v) ∷ []))) then results ++ ((k, v) ∷ []) else m)
          (ap (λ s. parse_loop fuel s limit next_pos (results ++ ((k, v) ∷ [])))
              (json₃ ∙ sym (append_assoc front₃ v (b'"' ∷ t)))
            ∙ ap (λ p. parse_loop fuel (after ++ (b'"' ∷ t)) limit p (results ++ ((k, v) ∷ [])))
                length-after)
