-- ===== src/Configuration/Printed.antt =====
-- src/common/config_manager.cpp: a file printed from settings and read back.
use cec_control.Prelude.{
  ◌≡◌, ◌≢◌, refl, Bool, true, false, not, some, List, [], ◌∷◌, ◌++◌, All, ◌==◌, ◌&&◌, ◌||◌,
  All-append, if◌then◌else◌, Text, ◌=ₜ◌, =ₜ-eq_true, arith, ap, sym, ◌∙◌,
}
use cec_control.Registry.Numbers.{is_space, skip_spaces}
use cec_control.Configuration.{
  Section, Sections, Reading, lines, trim, trim_end, put, put_in, store, read_trimmed, read_lines,
  load, find_key, section, or_default, get_string,
}
use cec_control.Configuration.Lines.{
  lines-append, trim_end-after, last_is-last, without_last-last, at_equals-append, is_empty-append,
}

-- A setting as a file states it: its section, its key and its value.
pub record Setting : Type 0 where
  pub name : Text
  pub key : Text
  pub value : Text

-- The section's header, and the key with its value.
abbrev pub header_line : Setting → Text
header_line e = b'[' ∷ (e.name ++ b']' ∷ [])

abbrev pub pair_line : Setting → Text
pair_line e = e.key ++ b'=' ∷ e.value

abbrev pub print_settings : List Setting → Text
print_settings [] = []
print_settings (e ∷ es) = header_line e ++ b'\n' ∷ (pair_line e ++ b'\n' ∷ print_settings es)

abbrev pub is_plain : Text → Bool
is_plain [] = false
is_plain (c ∷ cs) = not (is_space c || c == b'#' || c == b';' || c == b'[')

-- A key begins like one, neither text has blanks at its ends, nor breaks the line.
pub record IsSetting (e : Setting) : Type 0 where
  pub name_line : All (λ c. c ≢ b'\n') e.name
  pub key_line : All (λ c. c ≢ b'\n') e.key
  pub value_line : All (λ c. c ≢ b'\n') e.value
  pub plain : is_plain e.key ≡ true
  pub no_equals : All (λ c. c ≢ b'=') e.key
  pub key_end : trim_end e.key ≡ e.key
  pub value_front : skip_spaces e.value ≡ e.value
  pub value_end : trim_end e.value ≡ e.value

-- Specification: the value of the last setting of this section and key, or else the default.
abbrev pub last_value : List Setting → Text → Text → Text → Text
last_value [] name key d = d
last_value (e ∷ es) name key d =
    last_value es name key (if e.name =ₜ name && e.key =ₜ key then e.value else d)

same_as : (j key k : Text) → (j =ₜ key) ≡ true → (j =ₜ k) ≡ (key =ₜ k)
same_as j key k h = ap (λ t. t =ₜ k) (=ₜ-eq_true j key h)

other_than : (j key k : Text) → (j =ₜ key) ≡ false → (key =ₜ k) ≡ true → (j =ₜ k) ≡ false
other_than j key k h e = ap (λ t. j =ₜ t) (sym (=ₜ-eq_true key k e)) ∙ h

-- Reading what was put.
find_key-put :
    (key value k d : Text) (kvs : Section)
    → or_default (find_key k (put key value kvs)) d
      ≡ (if key =ₜ k then value else or_default (find_key k kvs) d)
unfolding find_key put
find_key-put key value k d [] = ground arith
find_key-put key value k d ((j, v) ∷ kvs) =
    ground (arith, same_as j key k, other_than j key k, find_key-put key value k d kvs)

get_string-put_in :
    (name key value s k d : Text) (c : Sections)
    → get_string (put_in name key value c) s k d
      ≡ (if name =ₜ s && key =ₜ k then value else get_string c s k d)
unfolding get_string put_in section
get_string-put_in name key value s k d [] = ground arith
get_string-put_in name key value s k d ((n, kvs) ∷ c) = ground (
  arith,
  same_as n name s,
  other_than n name s,
  find_key-put key value k d kvs,
  get_string-put_in name key value s k d c,
)

read_header :
    (name : Text) (r : Reading)
    → read_trimmed (trim (b'[' ∷ (name ++ b']' ∷ []))) r ≡ record r { current = name }
unfolding read_trimmed trim skip_spaces
read_header name r =
    rw (trim_end-after name b']' [] refl, is_empty-append name b']' [])
      (rw (last_is-last b']' (b'[' ∷ name), without_last-last b']' name) refl)

skip_plain : (key : Text) → is_plain key ≡ true → skip_spaces key ≡ key
unfolding skip_spaces
skip_plain [] p = cc
skip_plain (c ∷ cs) p = ground (arith, p)

store_trimmed :
    (r : Reading) (key value : Text)
    → trim key ≡ key
    → trim value ≡ value
    → store r (some (key, value)) ≡ record r { config = put_in r.current key value r.config }
unfolding store
store_trimmed r key value k v =
    ap (λ t. record r { config = put_in r.current t (trim value) r.config }) k
    ∙ ap (λ t. record r { config = put_in r.current key t r.config }) v

read_pair :
    (key value : Text) (r : Reading)
    → is_plain key ≡ true
    → All (λ c. c ≢ b'=') key
    → trim_end key ≡ key
    → skip_spaces value ≡ value
    → trim_end value ≡ value
    → read_trimmed (trim (key ++ b'=' ∷ value)) r
      ≡ record r { config = put_in r.current key value r.config }
unfolding read_trimmed trim skip_spaces store
read_pair [] value r p n k f v = cc
read_pair (c ∷ cs) value r p n k f v =
    let blank : is_space c ≡ false = ground (arith, p) in
    let comment : (c == b'#' || c == b';') ≡ false = ground (arith, p) in
    let header : (c == b'[') ≡ false = ground (arith, p) in
    rw (blank, trim_end-after (c ∷ cs) b'=' value refl, v, comment, header)
      (ap (store r) (at_equals-append (c ∷ cs) value n)
        ∙ store_trimmed r (c ∷ cs) value (ap trim_end (skip_plain (c ∷ cs) p) ∙ k)
            (ap trim_end f ∙ v))

-- The sections that a list of settings leaves.
abbrev stored : List Setting → Sections → Sections
unfolding put_in
stored [] c = c
stored (e ∷ es) c = stored es (put_in e.name e.key e.value c)

get_string-stored :
    (es : List Setting) (c : Sections) (name key d : Text)
    → get_string (stored es c) name key d ≡ last_value es name key (get_string c name key d)
unfolding stored
get_string-stored [] c name key d = refl
get_string-stored (e ∷ es) c name key d =
    get_string-stored es (put_in e.name e.key e.value c) name key d
    ∙ ap (last_value es name key) (get_string-put_in e.name e.key e.value name key d c)

read_lines-print :
    (es : List Setting) (r : Reading)
    → All IsSetting es
    → (read_lines (lines b'\n' (print_settings es)) r).config ≡ stored es r.config
unfolding read_lines lines
read_lines-print [] r h = refl
read_lines-print (e ∷ es) r h =
    let after : Reading → Sections = λ u. (read_lines (lines b'\n' (print_settings es)) u).config in
    let r1 = record r { current = e.name } in
    let header_ok =
      All-append (λ c. c ≢ b'\n') (b'[' ∷ e.name) (b']' ∷ []) (omega arith, h.0.name_line)
        (omega arith, tt) in
    let pair_ok =
      All-append (λ c. c ≢ b'\n') e.key (b'=' ∷ e.value) h.0.key_line
        (omega arith, h.0.value_line) in
    rw
      (
        lines-append b'\n' (header_line e) (pair_line e ++ b'\n' ∷ print_settings es) header_ok,
        lines-append b'\n' (pair_line e) (print_settings es) pair_ok,
      )
      (ap (λ u. after (read_trimmed (trim (pair_line e)) u)) (read_header e.name r)
        ∙ ap after (
            read_pair e.key e.value r1 h.0.plain h.0.no_equals h.0.key_end h.0.value_front
              h.0.value_end)
        ∙ read_lines-print es (record r1 { config = put_in e.name e.key e.value r.config }) h.1)

-- A file printed from settings, each with its section's header, is read so that each key of each
-- section has the value of its last setting in the file, and a key with none has the default. The
-- texts have no line breaks and no blanks at their ends, and a key has no equals sign and does not
-- begin like a comment or a header.
pub get_string-load :
    (es : List Setting) (name key d : Text)
    → All IsSetting es
    → get_string (load (some (print_settings es))).1 name key d ≡ last_value es name key d
unfolding load get_string
get_string-load es name key d h =
    ap (λ c. get_string c name key d) (read_lines-print es (record { current = []; config = [] }) h)
    ∙ get_string-stored es [] name key d
