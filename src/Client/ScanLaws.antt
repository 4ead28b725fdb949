-- ===== src/Client/ScanLaws.antt =====
-- How the client reads the results that the server formats.
use custom_database.Prelude.{
  ℕ, zero, suc, ◌+◌, ◌-◌, ◌≤◌, ◌<◌, ◌≡◌, refl, ap, sym, ◌∙◌, arith, none, some, List, [], ◌∷◌, ◌++◌,
  append_assoc, Bytes, text, length, take, leb, if◌then◌else◌, All, length-append,
}
use custom_database.Bytes.Find.{find, search_from, find-append}
use custom_database.Table.{Entry}
use custom_database.Table.Limit.{collect, collect-take}
use custom_database.Server.Request.{format_entry, format_entries, format_results}
use custom_database.Client.Scan.{key_mark, parse_loop, parse_results}
use custom_database.Client.ScanRound.{
  middle, tail_rest, tail_text, entry_text, QuoteFree, parse_loop-entry,
}

abbrev pub IsPlain : Entry → Type 0
IsPlain (k, v) = QuoteFree k × QuoteFree v

no_key_mark : (i : ℕ) → search_from key_mark (text "\"}]") i ≡ none
unfolding search_from
no_key_mark i = refl

next_key_mark :
    (rest : Bytes) (i : ℕ)
    → search_from key_mark (text "\"}," ++ (key_mark ++ rest)) i ≡ some (i + 3)
unfolding search_from
next_key_mark rest i = ap some (omega arith)

parse_loop-stop :
    (fuel : ℕ) (json : Bytes) (limit pos : ℕ) (results : List Entry)
    → find key_mark json pos ≡ none
    → parse_loop fuel json limit pos results ≡ results
unfolding parse_loop
parse_loop-stop zero json limit pos results e = refl
parse_loop-stop (suc fuel) json limit pos results e = rw (e, parse_loop)

module _ (k v : Bytes) (es : List Entry) (front : Bytes) where
  comma_text :
      front ++ tail_text ((k, v) ∷ es)
      ≡ (front ++ text "\"},") ++ (key_mark ++ (k ++ (middle ++ (v ++ tail_text es))))
  comma_text =
      ap (λ s. front ++ (text "\"}," ++ s)) (entry_text k v es)
      ∙ sym (append_assoc front (text "\"},") _)

  comma_mark :
      find key_mark
        ((front ++ text "\"},") ++ (key_mark ++ (k ++ (middle ++ (v ++ tail_text es)))))
        (length front)
      ≡ some (length (front ++ text "\"},"))
  comma_mark =
      ap (λ s. find key_mark s (length front)) (append_assoc front (text "\"},") _)
      ∙ find-append key_mark front _ (length front) refl
      ∙ next_key_mark _ (length front)
      ∙ ap some (omega (arith, length-append front (text "\"},")))

-- From the end of a value on, the loop reads what is left of the results.
parse_loop-tail :
    (es : List Entry) (fuel limit : ℕ) (front : Bytes) (results : List Entry)
    → All IsPlain es
    → length es < fuel
    → parse_loop fuel (front ++ tail_text es) limit (length front) results
      ≡ collect limit results es
unfolding collect
parse_loop-tail [] fuel limit front results h lt =
    parse_loop-stop fuel (front ++ tail_text []) limit (length front) results
      (find-append key_mark front (tail_text []) (length front) refl ∙ no_key_mark (length front))
parse_loop-tail (e ∷ es) zero limit front results h lt = elim lt [ ]
parse_loop-tail ((k, v) ∷ es) (suc fuel) limit front results ((hk, hv), h) lt =
    let comma = front ++ text "\"}," in
    let whole = comma_text k v es front in
    ap (λ s. parse_loop (suc fuel) s limit (length front) results) whole
    ∙ parse_loop-entry comma k v (tail_rest es) hk hv fuel limit (length front) results
        (comma_mark k v es front)
    ∙ ap
        (λ m. if leb limit (length (results ++ ((k, v) ∷ []))) then results ++ ((k, v) ∷ []) else m)
        (parse_loop-tail es fuel limit _ (results ++ ((k, v) ∷ [])) h (omega arith))

length-format_entries : (es : List Entry) → length es ≤ length (format_entries es)
unfolding format_entries format_entry
length-format_entries [] = omega arith
length-format_entries ((k, v) ∷ []) = omega arith
length-format_entries ((k, v) ∷ e ∷ es) = omega (
  arith,
  length-append (format_entry (k, v)) (text "," ++ format_entries (e ∷ es)),
  length-format_entries (e ∷ es),
)

first_mark : (rest : Bytes) → find key_mark (text "[" ++ (key_mark ++ rest)) 0 ≡ some 1
first_mark rest = find-append key_mark [] _ 0 refl ∙ unfold search_from in refl

-- Whatever results the server formats, if their keys and values hold no quote, the client reads
-- back exactly the first `limit` of them (the first one, for a limit of 0).
pub parse_results-format_results :
    (limit : ℕ) (es : List Entry)
    → All IsPlain es
    → parse_results limit (format_results es) ≡ take (suc (limit - 1)) es
unfolding parse_results format_results
parse_results-format_results limit [] h =
    parse_loop-stop 3 (text "[]") limit 0 [] (unfold find in refl)
parse_results-format_results limit ((k, v) ∷ es) ((hk, hv), h) =
    let shown = text "[" ++ (format_entries ((k, v) ∷ es) ++ text "]") in
    let enough : length es < length shown = omega (
      arith,
      length-format_entries ((k, v) ∷ es),
      length-append (format_entries ((k, v) ∷ es)) (text "]"),
    ) in
    ap (λ s. parse_loop (suc (length shown)) (text "[" ++ s) limit 0 []) (entry_text k v es)
    ∙ parse_loop-entry (text "[") k v (tail_rest es) hk hv (length shown) limit 0 [] (first_mark _)
    ∙ ap (λ m. if leb limit 1 then (k, v) ∷ [] else m)
        (parse_loop-tail es (length shown) limit (text "[" ++ key_mark ++ k ++ middle ++ v)
          ((k, v) ∷ []) h enough)
    ∙ unfold collect in collect-take limit [] ((k, v) ∷ es)
