-- ===== src/Config.antt =====
-- config/config.go and helpers/helpers.go. The command line is the record `Flags` of the values
-- that the package `flag` has read; `strings.Split` and `strings.Join` are at the separator ",".
pub mod Addresses
pub mod Lists
use Prim.Native.Char.{Char, code}
use Prim.Native.String.{◌++◌ as ◌<>◌}
use committer.Prelude.{
  ℕ, Bool, true, false, not, ◌&&◌, String, List, [], ◌∷◌, ◌++◌, ◌==◌, str_eq, if◌then◌else◌,
}

pub record Config : Type 0 where
  pub role : String
  pub nodeaddr : String
  pub coordinator : String
  pub followers : List String
  pub whitelist : List String
  pub commit_type : String
  pub timeout : ℕ
  pub db_path : String
  pub with_trace : Bool

pub record Flags : Type 0 where
  pub role : String
  pub nodeaddr : String
  pub coordinator : String
  pub committype : String
  pub timeout : ℕ
  pub dbpath : String
  pub withtrace : Bool
  pub followers : String
  pub whitelist : String

-- The defaults of the flags.
abbrev pub default_flags : Flags
default_flags = record {
  role = "follower";
  nodeaddr = "localhost:3050";
  coordinator = "";
  committype = "three-phase";
  timeout = 1000;
  dbpath = "./badger";
  withtrace = false;
  followers = "";
  whitelist = "127.0.0.1";
}

-- `helpers.Includes`
unfoldable pub includes : List String → String → Bool
includes [] value = false
includes (a ∷ arr) value = if str_eq a value then true else includes arr value

-- One more character in front of the first piece.
unfoldable push_char : Char → List String → List String
push_char c [] = []
push_char c (w ∷ ws) = (String.◌∷◌ c w) ∷ ws

unfoldable pub split : String → List String
unfolding push_char
split String.[] = "" ∷ []
split (String.◌∷◌ c s) = if code c == b',' then "" ∷ split s else push_char c (split s)

-- The `String` methods of `followers` and `whitelist`.
unfoldable pub join : List String → String
join [] = ""
join (w ∷ []) = w
join (w ∷ v ∷ ws) = w <> "," <> join (v ∷ ws)

-- The `Set` methods of `followers` and `whitelist`.
unfoldable pub set : List String → String → List String
set i value = i ++ value ∷ []

unfoldable pub get : Flags → Config
unfolding includes split
get f = record {
  role = f.role;
  nodeaddr = f.nodeaddr;
  coordinator = f.coordinator;
  followers = followers_array;
  whitelist = split f.whitelist;
  commit_type = f.committype;
  timeout = f.timeout;
  db_path = f.dbpath;
  with_trace = f.withtrace;
}
  where
    named : List String
    named = split f.followers

    followers_array : List String
    followers_array =
        if not (str_eq f.role "coordinator") && not (includes named f.nodeaddr)
        then named ++ f.nodeaddr ∷ []
        else named
