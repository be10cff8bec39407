-- ===== src/Tests/GitRuns.antt =====
-- The output of git for a branch that has drifted from its upstream, with two changed files.
use pyre.Prelude.{ℕ, ◌≡◌, refl, arith, List, [], ◌∷◌, none, some}
use pyre.Prelude.Text.{codes}
use pyre.Git.{
  parse_porcelain, parse_lines, from_lines, from_header, from_branch, with_dots, with_upstream,
  extract_count,
}
use pyre.Git.Text.{lines_from, strip_cr, IsRefName}
use pyre.Git.Numbers.{Prints, parse_u32}
use pyre.Git.Parsed.{status, parse_porcelain-status}

-- The example of the source's own tests, and a branch without an upstream.
from_text : parse_porcelain (codes "## main...origin/main [ahead 2, behind 3]\n") ≡ record {
  branch = codes "main";
  dirty = 0;
  ahead = 2;
  behind = 3;
  upstream = some (codes "origin/main");
}
unfolding parse_porcelain parse_lines from_lines from_header from_branch with_dots with_upstream
    extract_count lines_from strip_cr parse_u32
from_text = refl

local_branch :
    parse_porcelain (codes "## main\n M a\r\n?? b")
    ≡ record { branch = codes "main"; dirty = 2; ahead = 0; behind = 0; upstream = none }
unfolding parse_porcelain parse_lines from_lines from_header from_branch with_dots with_upstream
    extract_count lines_from strip_cr parse_u32
local_branch = refl

abbrev files : List (List ℕ)
files = codes " M src/lib.rs" ∷ codes "?? notes" ∷ []

twelve : Prints 12 (codes "12")
twelve = record { value_eq = refl; digits = refl; ne_nil = refl }

three : Prints 3 (codes "3")
three = record { value_eq = refl; digits = refl; ne_nil = refl }

is_name : IsRefName (codes "v1.2")
unfolding IsRefName
is_name = (refl, (refl, (refl, refl)))

parse_porcelain-status_example :
    parse_porcelain (status (codes "v1.2") (codes "origin/v1.2") (codes "12") (codes "3") files)
    ≡ record {
      branch = codes "v1.2";
      dirty = 2;
      ahead = 12;
      behind = 3;
      upstream = some (codes "origin/v1.2");
    }
parse_porcelain-status_example =
    parse_porcelain-status 12 3 (codes "v1.2") (codes "origin/v1.2") (codes "12") (codes "3") files
      is_name refl refl (omega arith) (omega arith) twelve three refl
