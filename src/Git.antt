-- ===== src/Git.antt =====
-- The status of a pane's repository (crates/pyred/src/git.rs): the parser of what
-- `git status --porcelain=v1 --branch` prints. Text is the list of its bytes; running git is not
-- modelled, and `cwd`, which is filled in later, is left out.
pub mod Text
pub mod Numbers
pub mod Parsed
use pyre.Prelude.{ℕ, ◌+◌, ◌%◌, ◌^◌, Bool, true, false, List, [], ◌∷◌, ◌++◌, Option, none, some}
use pyre.Prelude.{if◌then◌else◌, length, filter, is_empty, not}
use pyre.Prelude.Machine.{u32}
use pyre.Prelude.Text.{codes}
use pyre.Git.Text.{lines, strip_prefix, split_first, starts_with}
use pyre.Git.Numbers.{leading_digits, parse_u32}

pub record GitInfo : Type 0 where
  pub branch : List ℕ
  pub dirty : ℕ
  pub ahead : ℕ
  pub behind : ℕ
  pub upstream : Option (List ℕ)

abbrev pub empty_info : GitInfo
empty_info = record { branch = []; dirty = 0; ahead = 0; behind = 0; upstream = none }

-- `s.find(prefix)?` and what follows it.
abbrev pub count_after : Option (List ℕ × List ℕ) → Option ℕ
count_after none = none
count_after (some (before, rest)) = parse_u32 (leading_digits rest)

unfoldable pub extract_count : List ℕ → List ℕ → Option ℕ
extract_count s prefix = count_after (split_first prefix s)

abbrev pub or_zero : Option ℕ → ℕ
or_zero none = 0
or_zero (some n) = n

-- The upstream and what is in brackets behind it.
unfoldable pub with_upstream : List ℕ → List ℕ → Option (List ℕ × List ℕ) → GitInfo
with_upstream branch after none = record empty_info { branch = branch; upstream = some after }
with_upstream branch after (some (upstream, content)) = record {
  branch = branch;
  dirty = 0;
  ahead = or_zero (extract_count content (codes "ahead "));
  behind = or_zero (extract_count content (codes "behind "));
  upstream = some upstream;
}

-- A local branch without an upstream has no three dots.
unfoldable pub with_dots : List ℕ → Option (List ℕ × List ℕ) → GitInfo
with_dots header none = record empty_info { branch = header }
with_dots header (some (branch, after)) =
    with_upstream branch after (split_first (codes " [") after)

unfoldable pub from_branch : List ℕ → GitInfo
from_branch header =
    if starts_with (codes "HEAD (no branch)") header
    then record empty_info { branch = codes "HEAD" }
    else with_dots header (split_first (codes "...") header)

unfoldable pub from_header : List ℕ → Option (List ℕ) → GitInfo
from_header header (some rest) = record empty_info { branch = rest }
from_header header none = from_branch header

-- The branch on the prefix of the first line; the other lines are changed files.
unfoldable pub from_lines : Option (List ℕ) → List (List ℕ) → GitInfo
from_lines none files = empty_info
from_lines (some header) files =
    record (from_header header (strip_prefix (codes "No commits yet on ") header)) {
      dirty = u32 (length (filter (λ l. not (is_empty l)) files));
    }

unfoldable pub parse_lines : List (List ℕ) → GitInfo
parse_lines [] = empty_info
parse_lines (first ∷ files) = from_lines (strip_prefix (codes "## ") first) files

unfoldable pub parse_porcelain : List ℕ → GitInfo
parse_porcelain out = parse_lines (lines out)
