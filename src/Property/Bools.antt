-- ===== src/Property/Bools.antt =====
-- `BoolProperty` of src/Property.cc.
use boxi.Prelude.{Bool, true, false, Option, none, some}
use boxi.Prelude.Text.{Text}
use boxi.Property.{Property, KeyReader, set_default, set_clean, set_from}

-- `==` of two bools.
abbrev pub bool_eq : Bool → Bool → Bool
bool_eq true b = b
bool_eq false true = false
bool_eq false false = true

-- `BoolProperty(pKeyName, value, pListener)`.
unfoldable pub new_bool : Text → Bool → Bool → Property Bool
unfolding set_clean
new_bool key_name value listening = set_clean (record {
  key_name = key_name;
  listening = listening;
  value = value;
  configured = true;
  default_value = value;
  default_configured = true;
  original_value = value;
  was_configured = true;
})

-- `BoolProperty(pKeyName, rConf, pListener)`, over the bits that stood in the object before.
unfoldable pub bool_from_conf : Property Bool → KeyReader Bool → Option (Property Bool)
unfolding set_from
bool_from_conf raw conf = elim (set_from conf raw) [ none ↦ none | some p ↦ some (set_default p) ]
