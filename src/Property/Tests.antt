-- ===== src/Property/Tests.antt =====
-- The theorems on properties at concrete values.
use boxi.Prelude.{◌≡◌, ◌≢◌, refl, ◌&&◌, not, ◌%◌, ◌^◌, true, none, some, [], ◌∷◌, arith, lit}
use boxi.Prelude.Int.{ℤ, pos, negsuc, int_eq, int_eq_iff}
use boxi.Property.{
  Property, get_pointer, set, clear, set_clean, revert, reset, is_clean, is_default,
}
use boxi.Property.Edits.{
  assign, unset, run_edits, pointer_eq, run_edits_lem, edits_notify, made_clean,
}
use boxi.Property.Number.{show_digits, to_int, strtol, show_int}
use boxi.Property.Ints.{new_int, set_from_string, get_into_text}
use boxi.Property.Roundtrip.{set_from_string-get_into, set_from_string_wraps}

abbrev wait : Property ℤ
wait = record {
  key_name = lit "MaxUploadWait";
  listening = true;
  value = negsuc 4;
  original_value = pos 1;
  default_value = pos 86400;
  configured = true;
  was_configured = true;
  default_configured = true;
}

new_int-is_clean : is_clean int_eq (new_int (lit "MaxUploadWait") (pos 86400) true) ≡ true
unfolding is_clean new_int
new_int-is_clean = refl

run_edits_lem_example :
    let q = run_edits int_eq (assign (pos 7) ∷ unset ∷ []) (set_clean wait) in
    (get_pointer (revert q) ≡ get_pointer wait)
    × (get_pointer (reset q) ≡ get_pointer (reset wait))
    × (is_clean int_eq q ≡ pointer_eq int_eq (get_pointer wait) (get_pointer q))
    × (is_default int_eq q ≡ pointer_eq int_eq (get_pointer (reset wait)) (get_pointer q))
run_edits_lem_example = run_edits_lem int_eq (assign (pos 7) ∷ unset ∷ []) wait

edits_notify_example :
    (get_pointer (set int_eq wait (pos 7)).0 ≡ some (pos 7))
    × ((set int_eq wait (pos 7)).1
        ≡ (not (pointer_eq int_eq (get_pointer wait) (some (pos 7))) && true))
    × (get_pointer (clear wait).0 ≡ none)
    × ((clear wait).1 ≡ (not (pointer_eq int_eq (get_pointer wait) none) && true))
edits_notify_example = edits_notify int_eq int_eq_iff wait (pos 7)

made_clean_example :
    (is_clean int_eq (set_clean wait) ≡ true)
    × (get_pointer (set_clean wait) ≡ get_pointer wait)
    × (is_clean int_eq (revert wait) ≡ true)
    × (is_clean int_eq (reset wait) ≡ true)
    × (is_default int_eq (reset wait) ≡ true)
made_clean_example = made_clean int_eq int_eq_iff wait

set_from_string-get_into_example :
    set_from_string wait (get_into_text wait []).0
    ≡ ((set int_eq wait (negsuc 4)).0, true, (set int_eq wait (negsuc 4)).1)
set_from_string-get_into_example = set_from_string-get_into wait wait [] refl (omega arith)

wait_prints : get_into_text wait [] ≡ (lit "-5", true)
unfolding get_into_text show_int show_digits
wait_prints = refl

-- `0x` alone is accepted, as 0.
bare_0x : (set_from_string wait (lit "0x")).0.value ≡ pos 0
unfolding set_from_string strtol set
bare_0x = refl

set_from_string_wraps_example :
    let r = set_from_string wait (show_digits 10 4294967297 []) in
    (r.1 ≡ true) × (r.0.value ≡ to_int (4294967297 % 2 ^ 32)) × (r.0.value ≢ pos 4294967297)
set_from_string_wraps_example = set_from_string_wraps wait 4294967297 (omega arith) (omega arith)
