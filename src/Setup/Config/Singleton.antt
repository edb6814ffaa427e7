-- ===== src/Setup/Config/Singleton.antt =====
-- The one object of `Config` of svoiptunnel/config.cpp and config.h, which `pThis` leads to.
use svoiptunnel.Setup.Config.{read, value_int, value_string}
use svoiptunnel.Base.Dict.{Dict}
use svoiptunnel.Base.{
  ℕ, Bool, Bytes, List, Option, Outcome, [], fails, false, none, null_pointer, ok, some, true,
  ◌>>=◌,
}

-- What the files hold: the words of the configuration file, none where it cannot be opened; and what
-- `vFile >> _version` leaves in `_version`, from what was there.
pub record Files : Type 0 where
  pub words : Bytes → Option (List Bytes)
  pub version_word : Bytes → Bytes → Bytes

pub record Config : Type 0 where
  pub file_name : Bytes
  pub ver_file_name : Bytes
  pub items : Dict Bytes Bytes
  pub version : Bytes
  pub local_ip : Bytes
  pub public_ip : Bytes

-- `pThis`
abbrev pub Singleton : Type 0
Singleton = Option Config

abbrev words_or : Option (List Bytes) → List Bytes
words_or none = []
words_or (some words) = words

abbrev could_open : Option (List Bytes) → Bool
could_open none = false
could_open (some words) = true

-- `Read`: the items are cleared before the file is opened.
unfoldable pub read_files : Files → Config → Config × Bool
unfolding read
read_files files c =
    let words = files.words c.file_name in
    (
      record c {
        version = files.version_word c.ver_file_name c.version;
        items = read (words_or words);
      },
      could_open words,
    )

unfoldable pub new_config : Files → Bytes → Bytes → Config
unfolding read_files
new_config files file_name ver_file =
    (read_files files (record {
      file_name = file_name;
      ver_file_name = ver_file;
      items = [];
      version = [];
      local_ip = [];
      public_ip = [];
    })).0

unfoldable pub initialize : Files → Bytes → Bytes → Singleton → Singleton
unfolding new_config
initialize files file_name ver_file none = some (new_config files file_name ver_file)
initialize files file_name ver_file (some c) = some c

unfoldable pub release : Singleton → Singleton
release s = none

-- `*pThis` through `instance`, `version` and the like.
unfoldable pub instance_of : Singleton → Outcome Config
instance_of none = fails null_pointer
instance_of (some c) = ok c

unfoldable pub config_string : Singleton → Bytes → Bytes → Bytes
config_string none key def = def
config_string (some c) key def = value_string c.items key def

unfoldable pub config_int : (Bytes → Option ℕ) → Singleton → Bytes → ℕ → Outcome ℕ
config_int to_int none key def = ok def
config_int to_int (some c) key def = value_int to_int c.items key def

unfoldable pub set_addresses : Bytes → Bytes → Singleton → Outcome Singleton
unfolding instance_of
set_addresses local_ip public_ip s =
    instance_of s >>= λ c. ok (some (record c { local_ip = local_ip; public_ip = public_ip }))

unfoldable pub reload : Files → Singleton → Outcome Singleton
unfolding instance_of read_files
reload files s = instance_of s >>= λ c. ok (some (read_files files c).0)
