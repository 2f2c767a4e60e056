-- ===== src/Config/Client.antt =====
-- A `ClientConfig` as a whole: `Load`, `IsClean` and `Reset` of src/ClientConfig.cc.
use boxi.Prelude.{Bool, true, false, ◌&&◌, Option, none, some, List, [], ◌∷◌, map, if◌then◌else◌}
use boxi.Prelude.Text.{Text}
use boxi.Property.{reset}
use boxi.Location.Excluded.{Location, is_same_location}
use boxi.Config.Locations.{Config, notify_listeners}
use boxi.Config.Props.{Props}
use boxi.Config.Lifecycle.{
  all_props, set_clean_props, is_clean_props, BoxConfig, pid_file_told, load_strings, load_ints,
  load_bools,
}

-- The properties, `mConfigFileName`, `mapOriginalConfig`, and the locations with the listeners.
pub record Client : Type 0 where
  pub props : Props
  pub file_name : Text
  pub original : Option BoxConfig
  pub config : Config

-- `SetListener` of a location.
abbrev pub with_listener : Location → Location
with_listener loc = record loc {
  excluded = record loc.excluded { listening = true };
  listening = true;
}

-- The three lists of `SetFrom`, one after the other.
unfoldable pub load_props : BoxConfig → Props → Option Props
load_props conf c = elim (load_strings conf c) [
  | none ↦ none
  | some p ↦ elim (load_ints conf p) [ none ↦ none | some p' ↦ load_bools conf p' ]
]

-- The locations and the listeners after the property of the PID file was read.
unfoldable pub after_pid_file : BoxConfig → Client → Config
after_pid_file conf c = if pid_file_told conf c.props then notify_listeners c.config else c.config

-- What follows them.
unfoldable pub after_load : BoxConfig → Client → Props → Client
after_load conf c p = record c {
  props = set_clean_props p;
  original = some conf;
  config =
      notify_listeners
        (record (after_pid_file conf c) { locations = map with_listener conf.locations });
}

-- `Load` of a Configuration; none where a reader throws.
unfoldable pub load_client : BoxConfig → Client → Option Client
load_client conf c = elim (load_props conf c.props) [
  | none ↦ none
  | some p ↦ some (after_load conf c p)
]

-- The constructor without a file, over the defaults of the properties.
unfoldable pub new_client : Props → Client
new_client defaults = record {
  props = set_clean_props defaults;
  file_name = [];
  original = none;
  config = record { locations = []; listeners = []; notified = [] };
}

unfoldable pub reset_client : Client → Client
reset_client c =
    let props = all_props reset reset reset c.props in
    record c {
      props = record props { cert_request_file = reset props.cert_request_file };
      file_name = [];
      original = none;
      config = record c.config { locations = [] };
    }

-- The loop of `IsClean` over two lists of locations, with the test behind it.
unfoldable pub same_locations : List Location → List Location → Bool
same_locations [] [] = true
same_locations [] (new ∷ news) = false
same_locations (old ∷ olds) [] = false
same_locations (old ∷ olds) (new ∷ news) =
    let rest = same_locations olds news in if is_same_location new old then rest else false

abbrev pub original_locations : Option BoxConfig → List Location
original_locations none = []
original_locations (some conf) = conf.locations

unfoldable pub is_clean_client : Client → Bool
is_clean_client c =
    is_clean_props c.props && same_locations (original_locations c.original) c.config.locations
