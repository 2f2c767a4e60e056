-- ===== src/Property/Ints.antt =====
-- `IntProperty` of src/Property.cc.
use boxi.Prelude.{Bool, true, false, not, ◌==◌, Option, none, some, [], ◌∷◌, if◌then◌else◌}
use boxi.Prelude.Text.{Text}
use boxi.Prelude.Int.{ℤ, pos, int_eq}
use boxi.Property.{
  Property, KeyReader, set_default, set_clean, set_from, set, clear, get_pointer, reset, revert,
  get_into, is_clean, is_default, is,
}
use boxi.Property.Number.{strtol, to_int, show_int}

abbrev initial : Text → ℤ → Bool → Bool → Property ℤ
initial key_name value configured listening = record {
  key_name = key_name;
  listening = listening;
  value = value;
  configured = configured;
  default_value = value;
  default_configured = configured;
  original_value = value;
  was_configured = configured;
}

-- `IntProperty(pKeyName, value, pListener)`.
unfoldable pub new_int : Text → ℤ → Bool → Property ℤ
unfolding set_clean
new_int key_name value listening = set_clean (initial key_name value true listening)

-- `IntProperty(pKeyName, pListener)`.
unfoldable pub new_int_empty : Text → Bool → Property ℤ
unfolding set_clean
new_int_empty key_name listening = set_clean (initial key_name (pos 0) false listening)

-- `IntProperty(pKeyName, rConf, pListener)`, over the bits that stood in the object before.
unfoldable pub int_from_conf : Property ℤ → KeyReader ℤ → Option (Property ℤ)
unfolding set_from
int_from_conf raw conf = elim (set_from conf raw) [ none ↦ none | some p ↦ some (set_default p) ]

-- `StartsWith(_("0x"))`.
abbrev pub starts_0x : Text → Bool
starts_0x (a ∷ b ∷ t) = if a == b'0' then b == b'x' else false
starts_0x _ = false

abbrev pub drop_two : Text → Text
drop_two (a ∷ b ∷ t) = t
drop_two t = []

-- `*endptr == '\0'`.
abbrev pub at_end : Text → Bool
at_end [] = true
at_end (c ∷ _) = c == 0

-- `SetFromString`: the property, the result, and whether the listener was called.
unfoldable pub set_from_string : Property ℤ → Text → Property ℤ × Bool × Bool
set_from_string p [] = let r = clear p in (r.0, true, r.1)
set_from_string p (c ∷ t) =
    let source = c ∷ t in
    let parsed = if starts_0x source then strtol 16 (drop_two source) else strtol 10 source in
    if not (at_end parsed.1)
    then (p, false, false)
    else (let r = set int_eq p (to_int parsed.0) in (r.0, true, r.1))

-- `GetInto(std::string&)` and `GetInto(wxString&)`: what the text holds afterwards, and the result.
unfoldable pub get_into_text : Property ℤ → Text → Text × Bool
get_into_text p dest = if not p.configured then (dest, false) else (show_int p.value, true)

-- The methods that the class spells as the other two do.
abbrev pub int_set_from : KeyReader ℤ → Property ℤ → Option (Property ℤ)
int_set_from = set_from

abbrev pub int_get_pointer : Property ℤ → Option ℤ
int_get_pointer = get_pointer

abbrev pub int_clear : Property ℤ → Property ℤ × Bool
int_clear = clear

abbrev pub int_reset : Property ℤ → Property ℤ
int_reset = reset

abbrev pub int_revert : Property ℤ → Property ℤ
int_revert = revert

abbrev pub int_get_into : Property ℤ → ℤ → ℤ × Bool
int_get_into = get_into

abbrev pub int_set_clean : Property ℤ → Property ℤ
int_set_clean = set_clean

abbrev pub int_set : Property ℤ → ℤ → Property ℤ × Bool
int_set = set int_eq

abbrev pub int_is_clean : Property ℤ → Bool
int_is_clean = is_clean int_eq

abbrev pub int_is_default : Property ℤ → Bool
int_is_default = is_default int_eq

abbrev pub int_is : Property ℤ → ℤ → Bool
int_is = is int_eq
