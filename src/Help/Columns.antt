-- ===== src/Help/Columns.antt =====
-- src/common/help_printer.cpp: the columns of the list of commands.
use cec_control.Prelude.{
  ℕ, ◌+◌, ◌-◌, ◌≤◌, ◌≡◌, max, List, [], ◌∷◌, ◌++◌, length, length-append, is_empty, if◌then◌else◌,
  All, All-imp, codes, arith,
}
use cec_control.Registry.{CommandSpec}
use cec_control.Help.{
  left_of, width, widest, render_command_line, compute_description_column, spaces,
}

length-left_of : (spec : CommandSpec) → length (left_of spec) ≡ 2 + width spec
length-left_of spec = ground (
  arith,
  length-append spec.name ((if is_empty spec.arg_syntax then [] else codes " " ++ spec.arg_syntax)),
)

le-widest : (specs : List CommandSpec) (m : ℕ) → m ≤ widest specs m
unfolding widest
le-widest [] m = omega arith
le-widest (spec ∷ specs) m = omega (arith, le-widest specs (max m (width spec)))

width-le-widest :
    (specs : List CommandSpec) (m : ℕ) → All (λ spec. width spec ≤ widest specs m) specs
unfolding widest
width-le-widest [] m = tt
width-le-widest (spec ∷ specs) m = (
  omega (arith, le-widest specs (max m (width spec))),
  width-le-widest specs (max m (width spec)),
)

-- A command's line in a list whose descriptions stand at a column.
pub record IsAligned (column : ℕ) (spec : CommandSpec) : Type 0 where
  pub gap : ℕ
  pub printed : render_command_line spec column ≡ left_of spec ++ spaces gap ++ spec.help
  pub aligned : length (left_of spec) + gap ≡ column
  pub apart : 4 ≤ gap

line-IsAligned : (most : ℕ) (spec : CommandSpec) → width spec ≤ most → IsAligned (2 + most + 4) spec
unfolding render_command_line
line-IsAligned most spec h = record {
  gap = 2 + most + 4 - length (left_of spec);
  printed = ground (arith, length-left_of spec);
  aligned = omega (arith, length-left_of spec);
  apart = omega (arith, length-left_of spec);
}

-- In the list of any commands, each description begins at the computed column, and at least four spaces
-- stand before it: the single space that the code falls back to is never needed.
pub lines-IsAligned :
    (specs : List CommandSpec) → All (IsAligned (compute_description_column specs)) specs
unfolding compute_description_column
lines-IsAligned specs =
    All-imp (λ spec. width spec ≤ widest specs 0) (IsAligned (compute_description_column specs))
      specs (line-IsAligned (widest specs 0)) (width-le-widest specs 0)
