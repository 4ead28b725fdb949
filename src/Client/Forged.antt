-- ===== src/Client/Forged.antt =====
-- Values that hold a quote, in the text of a scan, which escapes nothing.
use custom_database.Prelude.{
  ℕ, suc, ◌-◌, ◌≡◌, ap, ◌∙◌, [], ◌∷◌, ◌++◌, append_assoc, Bytes, text, take,
}
use custom_database.Server.Request.{format_entry, format_entries, format_results}
use custom_database.Client.Scan.{parse_results}
use custom_database.Client.ScanLaws.{IsPlain, parse_results-format_results}

-- A value that holds the end of its entry and the start of another.
abbrev pub forged : Bytes → Bytes → Bytes → Bytes
forged value other_key other_value =
    value ++ (text "\"},{\"key\":\"" ++ (other_key ++ (text "\",\"value\":\"" ++ other_value)))

format_results-forged :
    (key value other_key other_value : Bytes)
    → format_results ((key, forged value other_key other_value) ∷ [])
      ≡ format_results ((key, value) ∷ (other_key, other_value) ∷ [])
unfolding format_results format_entries format_entry
format_results-forged key value other_key other_value = simp append_assoc

-- Where two keys and two values hold no quote, the text in which the server formats one entry,
-- whose value is the first value followed by a quote, the JSON of the second entry's start and the
-- second entry's texts, is read by the client as both entries, cut to the limit (the first one,
-- for a limit of 0).
pub parse_results-forged :
    (limit : ℕ) (key value other_key other_value : Bytes)
    → IsPlain (key, value)
    → IsPlain (other_key, other_value)
    → parse_results limit (format_results ((key, forged value other_key other_value) ∷ []))
      ≡ take (suc (limit - 1)) ((key, value) ∷ (other_key, other_value) ∷ [])
parse_results-forged limit key value other_key other_value h h' =
    ap (parse_results limit) (format_results-forged key value other_key other_value)
    ∙ parse_results-format_results limit ((key, value) ∷ (other_key, other_value) ∷ [])
        (h, (h', tt))
