-- ===== src/Store/Flash.antt =====
-- What the flash promises.
use nivalo_esp.Store.{Preferences}
use nivalo_esp.Common.{◌≡◌, ◌⊎◌, ◌≢◌, Text}

-- A put touches no other key, and it stores the value or leaves the old one, whatever it reports;
-- a put that never happens, since the power was cut, is one that leaves the old value.
pub record IsFlash {S : Type 0} (prefs : Preferences S) : Type 0 where
  pub put_other :
      (s : S) (key other value default : Text)
      → key ≢ other
      → prefs.get_string (prefs.put_string s key value).1 other default
        ≡ prefs.get_string s other default
  pub put_atomic :
      (s : S) (key value : Text)
      → ((default : Text) → prefs.get_string (prefs.put_string s key value).1 key default ≡ value)
        ⊎ ((default : Text)
            → prefs.get_string (prefs.put_string s key value).1 key default
              ≡ prefs.get_string s key default)
  -- A key has a value or gives every default.
  pub get_default :
      (s : S) (key : Text)
      → ((default : Text) → prefs.get_string s key default ≡ default)
        ⊎ ((value : Text) × ((default : Text) → prefs.get_string s key default ≡ value))
