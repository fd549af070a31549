-- ===== src/Logger/Routes.antt =====
-- src/common/logger.cpp: which lines reach which output.
use cec_control.Prelude.{
  ◌≡◌, refl, ◌∙◌, ap, Bool, true, false, ◌&&◌, List, [], ◌∷◌, leb, ltb, is_empty, if◌then◌else◌,
  Text, arith,
}
use cec_control.Logger.{
  rank, to_stdout, to_stderr, LogConfig, Logger, silent, configure, emit, Entry, line_of, log,
  log_all,
}

-- The lines of the entries that pass a test, the newest first, before those of earlier.
abbrev pub written : (Entry → Bool) → List Entry → List Text → List Text
written p [] lines = lines
written p (e ∷ es) lines = written p es (if p e then line_of e ∷ lines else lines)

-- The daemon's configuration, once `configure` has set it.
abbrev pub routed : LogConfig → Logger
routed c = configure true c silent

record IsRouted (c : LogConfig) (l : Logger) : Type 0 where
  low : l.low_sink ≡ to_stdout
  high : l.high_sink ≡ to_stderr
  least : l.min_level ≡ c.min_level
  opened : l.file_open ≡ true

abbrev pub passes : LogConfig → Entry → Bool
passes c e = leb (rank c.min_level) (rank e.level)

module _ (c : LogConfig) where
  log-IsRouted : (e : Entry) (l : Logger) → IsRouted c l → IsRouted c (log e l)
  unfolding log emit
  log-IsRouted e l r = ground (arith, r.low, r.high, r.least, r.opened)

  log-file :
      (e : Entry) (l : Logger)
      → IsRouted c l
      → (log e l).file ≡ (if passes c e then line_of e ∷ l.file else l.file)
  unfolding log emit
  log-file e l r = rw (r.least, r.opened, r.low, r.high) (ground arith)

  log-out :
      (e : Entry) (l : Logger)
      → IsRouted c l
      → (log e l).out ≡ (if passes c e && ltb (rank e.level) 3 then line_of e ∷ l.out else l.out)
  unfolding log emit
  log-out e l r = rw (r.least, r.opened, r.low, r.high) (ground arith)

  log-err :
      (e : Entry) (l : Logger)
      → IsRouted c l
      → (log e l).err ≡ (if passes c e && leb 3 (rank e.level) then line_of e ∷ l.err else l.err)
  unfolding log emit
  log-err e l r = rw (r.least, r.opened, r.low, r.high) (ground arith)

  routed_from :
      (es : List Entry) (l : Logger)
      → IsRouted c l
      → ((log_all es l).file ≡ written (passes c) es l.file)
        × ((log_all es l).out ≡ written (λ e. passes c e && ltb (rank e.level) 3) es l.out)
        × ((log_all es l).err ≡ written (λ e. passes c e && leb 3 (rank e.level)) es l.err)
  unfolding log_all
  routed_from [] l r = (refl, refl, refl)
  routed_from (e ∷ es) l r =
      let (f, o, x) = routed_from es (log e l) (log-IsRouted e l r) in
      (
        f ∙ ap (written (passes c) es) (log-file e l r),
        o ∙ ap (written (λ e. passes c e && ltb (rank e.level) 3) es) (log-out e l r),
        x ∙ ap (written (λ e. passes c e && leb 3 (rank e.level)) es) (log-err e l r),
      )

routed-IsRouted :
    (c : LogConfig)
    → c.low_level_sink ≡ to_stdout
    → c.high_level_sink ≡ to_stderr
    → is_empty c.file_path ≡ false
    → IsRouted c (routed c)
unfolding configure
routed-IsRouted c lo hi p = ground (arith, lo, hi, p)

routed-empty :
    (c : LogConfig) → ((routed c).file ≡ []) × ((routed c).out ≡ []) × ((routed c).err ≡ [])
unfolding configure
routed-empty c = ground arith

silent-log : (e : Entry) → log e silent ≡ silent
unfolding log emit
silent-log e = ground arith

silent-log_all : (es : List Entry) → log_all es silent ≡ silent
unfolding log_all
silent-log_all [] = refl
silent-log_all (e ∷ es) = ap (log_all es) (silent-log e) ∙ silent-log_all es

-- A logger that writes to the standard output, the error output and a file that could be opened writes
-- every line at or above the threshold to the file, in order, and to one of the outputs: below a warning
-- to the standard output, else to the error output. One that was never configured writes nothing.
pub log_all-written :
    (c : LogConfig) (es : List Entry)
    → c.low_level_sink ≡ to_stdout
    → c.high_level_sink ≡ to_stderr
    → is_empty c.file_path ≡ false
    → ((log_all es (routed c)).file ≡ written (passes c) es [])
      × ((log_all es (routed c)).out ≡ written (λ e. passes c e && ltb (rank e.level) 3) es [])
      × ((log_all es (routed c)).err ≡ written (λ e. passes c e && leb 3 (rank e.level)) es [])
      × (log_all es silent ≡ silent)
log_all-written c es lo hi p =
    let (f, o, x) = routed_from c es (routed c) (routed-IsRouted c lo hi p) in
    let (f', o', x') = routed-empty c in
    (
      f ∙ ap (written (passes c) es) f',
      o ∙ ap (written (λ e. passes c e && ltb (rank e.level) 3) es) o',
      x ∙ ap (written (λ e. passes c e && leb 3 (rank e.level)) es) x',
      silent-log_all es,
    )
