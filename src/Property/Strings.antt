-- ===== src/Property/Strings.antt =====
-- `StringProperty` of src/Property.cc.
use boxi.Prelude.{Bool, true, false, not, ◌||◌, ◌&&◌, Option, none, some, [], ◌∷◌, text_eq}
use boxi.Prelude.Text.{Text}
use boxi.Property.{
  Property, KeyReader, set_default, set_clean, set_from, set, clear, get_pointer, reset, revert,
  get_into, is_clean, is_default, is,
}

-- A property that was never set: a `std::string` starts empty.
abbrev pub blank : Text → Bool → Property Text
blank key_name listening = record {
  key_name = key_name;
  listening = listening;
  value = [];
  configured = false;
  default_value = [];
  default_configured = false;
  original_value = [];
  was_configured = false;
}

abbrev is_empty : Text → Bool
is_empty [] = true
is_empty (c ∷ t) = false

-- `StringProperty(pKeyName, value, pListener)`: an empty value counts as not configured.
unfoldable pub new_string : Text → Text → Bool → Property Text
unfolding set_clean
new_string key_name value listening = set_clean (
    set_default
      (record (blank key_name listening) { value = value; configured = not (is_empty value) }))

-- `StringProperty(pKeyName, pListener)`.
unfoldable pub new_string_empty : Text → Bool → Property Text
unfolding set_clean
new_string_empty key_name listening = set_default (set_clean (blank key_name listening))

-- `StringProperty(pKeyName, rConf, pListener)`.
unfoldable pub string_from_conf : Text → KeyReader Text → Bool → Option (Property Text)
unfolding set_from
string_from_conf key_name conf listening = elim (set_from conf (blank key_name listening)) [
  | none ↦ none
  | some p ↦ some (set_default p)
]

-- `Set` of a `std::string` or of a C string.
unfoldable pub set_text : Property Text → Text → Property Text × Bool
set_text p v = set text_eq p v

-- `Set` of a `wxString`, with wxConvBoxi's two directions: the comparison is made after decoding
-- the old value, and the bytes are stored.
unfoldable pub set_wx {ℓ} :
    {W : Type ℓ} (wx_eq : W → W → Bool) (decode : Text → W) (encode : W → Text)
    → Property Text
    → W
    → Property Text × Bool
set_wx wx_eq decode encode p new =
    let changed = not (wx_eq new (decode p.value)) || not p.configured in
    (record p { value = encode new; configured = true }, changed && p.listening)

-- The methods that the class spells as the other two do.
abbrev pub string_set_from : KeyReader Text → Property Text → Option (Property Text)
string_set_from = set_from

abbrev pub string_get_pointer : Property Text → Option Text
string_get_pointer = get_pointer

abbrev pub string_clear : Property Text → Property Text × Bool
string_clear = clear

abbrev pub string_reset : Property Text → Property Text
string_reset = reset

abbrev pub string_revert : Property Text → Property Text
string_revert = revert

abbrev pub string_get_into : Property Text → Text → Text × Bool
string_get_into = get_into

abbrev pub string_set_clean : Property Text → Property Text
string_set_clean = set_clean

abbrev pub string_is_clean : Property Text → Bool
string_is_clean = is_clean text_eq

abbrev pub string_is_default : Property Text → Bool
string_is_default = is_default text_eq

abbrev pub string_is : Property Text → Text → Bool
string_is = is text_eq
