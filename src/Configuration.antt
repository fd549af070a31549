-- ===== src/Configuration.antt =====
-- src/common/config_manager.h and config_manager.cpp: the INI file. A file is its text; `std::getline`,
-- `std::isspace` and `std::tolower` are those of the C locale, on ASCII text.
pub mod Settings
pub mod Lines
pub mod Printed
use cec_control.Prelude.{
  ℕ, ◌+◌, ◌-◌, not, ◌≡◌, Bool, true, false, Option, none, some, List, [], ◌∷◌, ◌++◌, ◌==◌, ◌&&◌,
  ◌||◌, leb, is_empty, if◌then◌else◌, Text, codes, ◌=ₜ◌,
}
use cec_control.Registry.Numbers.{Stoi, int, throws, stoi, is_space, skip_spaces}

-- The section's name with its keys and values, without order.
abbrev pub Section : Type 0
Section = List (Text × Text)

abbrev pub Sections : Type 0
Sections = List (Text × Section)

unfoldable pub trim_end : Text → Text
trim_end [] = []
trim_end (c ∷ cs) = let rest = trim_end cs in if is_empty rest && is_space c then [] else c ∷ rest

unfoldable pub trim : Text → Text
unfolding trim_end skip_spaces
trim s = trim_end (skip_spaces s)

-- A character at the front of the first line.
abbrev extend : ℕ → List Text → List Text
extend c [] = (c ∷ []) ∷ []
extend c (l ∷ ls) = (c ∷ l) ∷ ls

-- The lines that `std::getline` reads with this delimiter.
unfoldable pub lines : ℕ → Text → List Text
lines d [] = []
lines d (c ∷ cs) = let rest = lines d cs in if c == d then [] ∷ rest else extend c rest

-- `map[key] = value`.
unfoldable pub put : Text → Text → Section → Section
put key value [] = (key, value) ∷ []
put key value ((k, v) ∷ rest) =
    let more = put key value rest in if k =ₜ key then (k, value) ∷ rest else (k, v) ∷ more

-- `m_config[section][key] = value`.
unfoldable pub put_in : Text → Text → Text → Sections → Sections
unfolding put
put_in section key value [] = (section, (key, value) ∷ []) ∷ []
put_in section key value ((s, kvs) ∷ rest) =
    let more = put_in section key value rest in
    if s =ₜ section then (s, put key value kvs) ∷ rest else (s, kvs) ∷ more

-- The state of the loop: the current section, and what was read.
pub record Reading : Type 0 where
  pub current : Text
  pub config : Sections

-- The text before the first `=` and the text behind it.
unfoldable pub at_equals : Text → Option (Text × Text)
at_equals [] = none
at_equals (c ∷ cs) =
    let rest = at_equals cs in
    if c == b'=' then some ([], cs) else elim rest [ none ↦ none | some (k, v) ↦ some (c ∷ k, v) ]

abbrev pub last_is : ℕ → Text → Bool
last_is d [] = false
last_is d (c ∷ []) = c == d
last_is d (c ∷ e ∷ cs) = last_is d (e ∷ cs)

abbrev pub without_last : Text → Text
without_last [] = []
without_last (c ∷ []) = []
without_last (c ∷ e ∷ cs) = c ∷ without_last (e ∷ cs)

-- A pair that a line holds.
unfoldable pub store : Reading → Option (Text × Text) → Reading
unfolding put_in trim
store r none = r
store r (some (key, value)) = record r {
  config = put_in r.current (trim key) (trim value) r.config;
}

-- A line that is trimmed.
unfoldable pub read_trimmed : Text → Reading → Reading
unfolding at_equals store
read_trimmed [] r = r
read_trimmed (c ∷ cs) r =
    if c == b'#' || c == b';'
    then r
    else if c == b'[' && last_is b']' (c ∷ cs)
    then record r { current = without_last cs }
    else store r (at_equals (c ∷ cs))

unfoldable pub read_lines : List Text → Reading → Reading
unfolding read_trimmed trim
read_lines [] r = r
read_lines (line ∷ rest) r = read_lines rest (read_trimmed (trim line) r)

-- The answer of `load` with the sections: none for a file that cannot be opened.
unfoldable pub load : Option Text → Bool × Sections
unfolding read_lines lines
load none = (false, [])
load (some text) =
    (true, (read_lines (lines b'\n' text) (record { current = []; config = [] })).config)

unfoldable pub find_key : Text → Section → Option Text
find_key key [] = none
find_key key ((k, v) ∷ rest) = let more = find_key key rest in if k =ₜ key then some v else more

unfoldable pub section : Text → Sections → Section
section name [] = []
section name ((s, kvs) ∷ rest) = let more = section name rest in if s =ₜ name then kvs else more

abbrev pub or_default : Option Text → Text → Text
or_default none d = d
or_default (some v) d = v

-- A section that is not there has no key.
unfoldable pub get_string : Sections → Text → Text → Text → Text
unfolding find_key section
get_string c name key default = or_default (find_key key (section name c)) default

abbrev to_lower : ℕ → ℕ
to_lower c = if leb b'A' c && leb c b'Z' then c + 32 else c

abbrev lower : Text → Text
lower [] = []
lower (c ∷ cs) = to_lower c ∷ lower cs

unfoldable pub get_bool : Sections → Text → Text → Bool → Bool
unfolding get_string
get_bool c name key default =
    let value = lower (get_string c name key (if default then codes "true" else codes "false")) in
    value =ₜ codes "true" || value =ₜ codes "yes" || value =ₜ codes "1" || value =ₜ codes "on"

-- An `int`; `negsuc n` is the negative of the successor of n.
pub data ℤ : Type 0 where
  pos negsuc : ℕ → ℤ

or_int : Stoi → ℤ → ℤ
or_int throws d = d
or_int (int negative v rest) d = if negative && not (v == 0) then negsuc (v - 1) else pos v

unfoldable pub get_int : Sections → Text → Text → ℤ → ℤ
unfolding get_string or_int stoi
get_int c name key default =
    let value = get_string c name key [] in
    if is_empty value then default else or_int (stoi value) default
