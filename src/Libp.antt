-- ===== src/Libp.antt =====
-- common/src/libp.rs: the list of directories in LD_LIBRARY_PATH. A text is its bytes. The variable is
-- a value or not set, and has a value that is Unicode; the file system is a parameter.
pub mod Parts
pub mod Added
use Prim.Native.Char.{code}
use Prim.Native.String.{String}
use osu_micro_benchmarks_rs.Prelude.{
  ℕ, Bool, true, false, ◌||◌, Option, none, some, List, [], ◌∷◌, ◌++◌, ◌==◌, ◌&&◌, if◌then◌else◌,
}
use osu_micro_benchmarks_rs.Fan.Names.{same_name}

abbrev pub Text : Type 0
Text = List ℕ

abbrev pub ascii : String → Text
ascii String.[] = []
ascii (String.◌∷◌ c s) = code c ∷ ascii s

-- `:` and `/`
abbrev pub colon : ℕ
colon = 58

abbrev pub slash : ℕ
slash = 47

-- `starts_with`, and `contains`
pub starts_with : Text → Text → Bool
starts_with t [] = true
starts_with [] (p ∷ ps) = false
starts_with (x ∷ xs) (p ∷ ps) = (x == p) && starts_with xs ps

pub contains : Text → Text → Bool
contains [] p = starts_with [] p
contains (x ∷ xs) p = starts_with (x ∷ xs) p || contains xs p

-- The part in front of the first colon, and the others.
pub parts : Text → Text × List Text
parts [] = ([], [])
parts (x ∷ xs) =
    let (first, others) = parts xs in
    if x == colon then ([], first ∷ others) else (x ∷ first, others)

-- `split(':')`
pub split : Text → List Text
split t = let (first, others) = parts t in first ∷ others

-- `join(":")`: each text but the first has a colon in front.
pub join_rest : List Text → Text
join_rest [] = []
join_rest (e ∷ es) = colon ∷ (e ++ join_rest es)

pub join : List Text → Text
join [] = []
join (e ∷ es) = e ++ join_rest es

-- `filter(|e| *e != path)`
pub without : Text → List Text → List Text
without p [] = []
without p (e ∷ es) = let rest = without p es in if same_name e p then rest else e ∷ rest

pub is_empty : Text → Bool
is_empty [] = true
is_empty (x ∷ xs) = false

-- `env::var(…).unwrap_or_default()`
abbrev pub value : Option Text → Text
value none = []
value (some t) = t

-- Whether the path was added, and the variable afterwards.
pub add_to_ld_library_path : Text → Option Text → Bool × Option Text
add_to_ld_library_path path var =
    let current = value var in
    if contains current path
    then (false, var)
    else (true, some (if is_empty current then path else current ++ (colon ∷ path)))

pub remove_from_ld_library_path : Text → Option Text → Option Text
remove_from_ld_library_path path var = some (join (without path (split (value var))))

pub ld_library_path_entries : Option Text → List Text
ld_library_path_entries var =
    let current = value var in if is_empty current then [] else split current

-- The first directory that has the file.
pub find_in : (Text → Bool) → Text → List Text → Option Text
find_in exists name [] = none
find_in exists name (dir ∷ dirs) =
    let rest = find_in exists name dirs in
    let candidate = dir ++ (slash ∷ name) in if exists candidate then some candidate else rest

pub find_library : (Text → Bool) → Text → Option Text → Option Text
find_library exists name var = find_in exists name (ld_library_path_entries var)

pub add_existing : (Text → Bool) → List Text → Option Text → Option Text
add_existing exists [] var = var
add_existing exists (path ∷ paths) var =
    add_existing exists paths (if exists path then (add_to_ld_library_path path var).1 else var)

-- `if let Ok(home) = env::var(…) { … }`
pub add_home : Option Text → Option Text → Option Text
add_home none var = var
add_home (some home) var =
    (add_to_ld_library_path (home ++ ascii "/lib64")
      (add_to_ld_library_path (home ++ ascii "/lib") var).1).1

-- With the values of UCX_HOME, PMIX_HOME and PREFIX.
pub ensure_hpc_lib_paths :
    (Text → Bool) → Option Text → Option Text → Option Text → Option Text → Option Text
ensure_hpc_lib_paths exists ucx_home pmix_home prefix var =
    let system =
      add_existing exists
        (ascii "/usr/local/lib"
          ∷ ascii "/usr/lib"
          ∷ ascii "/usr/local/lib64"
          ∷ ascii "/usr/lib64"
          ∷ [])
        var in
    add_home prefix (add_home pmix_home (add_home ucx_home system))
