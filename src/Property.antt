-- ===== src/Property.antt =====
-- Configuration properties: include/Property.h and src/Property.cc. The three classes share their
-- state and most of their methods, which stand here over the type of the value.
pub mod Edits
pub mod Number
pub mod Bools
pub mod Ints
pub mod Strings
pub mod Roundtrip
mod Tests
use boxi.Prelude.{Bool, true, false, ◌&&◌, ◌||◌, not, Option, none, some, if◌then◌else◌}
use boxi.Prelude.Text.{Text}

pub record Property (A : Type 0) : Type 0 where
  pub key_name : Text
  -- `mpListener != NULL`.
  pub listening : Bool
  pub value : A
  pub original_value : A
  pub default_value : A
  pub configured : Bool
  pub was_configured : Bool
  pub default_configured : Bool

-- What `SetFrom` asks of a Box Backup `Configuration`: `KeyExists`, and the reader for the type,
-- which is `none` where it throws.
pub record KeyReader (A : Type 0) : Type 0 where
  pub key_exists : Text → Bool
  pub get_key_value : Text → Option A

abbrev pub bool_ne : Bool → Bool → Bool
bool_ne true b = not b
bool_ne false b = b

module _ {A : Type 0} where
  unfoldable pub set_clean : Property A → Property A
  set_clean p = record p { was_configured = p.configured; original_value = p.value }

  -- The last two assignments of every constructor.
  abbrev pub set_default : Property A → Property A
  set_default p = record p { default_value = p.value; default_configured = p.configured }

  -- `none` where the reader throws.
  unfoldable pub set_from : KeyReader A → Property A → Option (Property A)
  unfolding set_clean
  set_from conf p =
      if conf.key_exists p.key_name
      then elim (conf.get_key_value p.key_name) [
        | none ↦ none
        | some v ↦ some (set_clean (record p { value = v; configured = true }))
      ]
      else some (set_clean (record p { configured = false }))

  -- `none` for NULL.
  unfoldable pub get_pointer : Property A → Option A
  get_pointer p = if p.configured then some p.value else none

  -- With whether the listener was called.
  unfoldable pub clear : Property A → Property A × Bool
  clear p = let changed = p.configured in (record p { configured = false }, changed && p.listening)

  unfoldable pub reset : Property A → Property A
  unfolding set_clean
  reset p = set_clean (record p { value = p.default_value; configured = p.default_configured })

  unfoldable pub revert : Property A → Property A
  revert p = record p { configured = p.was_configured; value = p.original_value }

  -- `GetInto`: what `dest` holds afterwards, and the result.
  unfoldable pub get_into : Property A → A → A × Bool
  get_into p dest = (if p.configured then p.value else dest, p.configured)

  module _ (eq : A → A → Bool) where
    unfoldable pub set : Property A → A → Property A × Bool
    set p new_value =
        let changed = not (eq new_value p.value) || not p.configured in
        (record p { value = new_value; configured = true }, changed && p.listening)

    unfoldable pub is_clean : Property A → Bool
    is_clean p =
        if bool_ne p.configured p.was_configured
        then false
        else if not p.configured
        then true
        else eq p.original_value p.value

    unfoldable pub is_default : Property A → Bool
    is_default p =
        if bool_ne p.configured p.default_configured
        then false
        else if not p.configured
        then true
        else eq p.default_value p.value

    unfoldable pub is : Property A → A → Bool
    is p expected = p.configured && eq p.value expected
