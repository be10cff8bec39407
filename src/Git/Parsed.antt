-- ===== src/Git/Parsed.antt =====
-- What `git` prints for a branch with an upstream is read as what it says.
use pyre.Prelude.{ℕ, ◌<◌, ◌^◌, ◌≡◌, refl, sym, ap, ap₂, ◌∙◌, arith, Bool, true, false}
use pyre.Prelude.{List, [], ◌∷◌, ◌++◌, append_assoc, none, some, if◌then◌else◌, not}
use pyre.Prelude.{
  ◌==◌, ltb, leb, ◌&&◌, all, &&-true, contains, contains-append, flatten, map, length, filter,
  is_empty,
}
use pyre.Prelude.Machine.{u32}
use pyre.Prelude.Text.{codes}
use pyre.Git.{
  GitInfo, empty_info, count_after, extract_count, or_zero, with_upstream, with_dots, from_branch,
  from_header, from_lines, parse_lines, parse_porcelain,
}
use pyre.Git.Text.{
  lines_from, lines, strip_prefix, starts_with, split_first, strip_prefix-append,
  split_first-append, split_first-dots, IsRefName, lines_from-append, strip_cr-absent,
}
use pyre.Git.Numbers.{
  Prints, is_digit, leading_digits-append, parse_u32, parse_u32-Prints, digits-absent,
}

-- The two counts as git prints them, the branch with its upstream, and the whole output.
abbrev pub brackets : List ℕ → List ℕ → List ℕ
brackets ahead behind = codes "ahead " ++ (ahead ++ (codes ", behind " ++ (behind ++ codes "]")))

abbrev pub header : List ℕ → List ℕ → List ℕ → List ℕ → List ℕ
header branch upstream ahead behind =
    branch ++ (codes "..." ++ (upstream ++ (codes " [" ++ brackets ahead behind)))

abbrev pub status : List ℕ → List ℕ → List ℕ → List ℕ → List (List ℕ) → List ℕ
status branch upstream ahead behind files =
    (codes "## " ++ header branch upstream ahead behind)
    ++ (10 ∷ flatten (map (λ l. l ++ (10 ∷ [])) files))

-- Names have no spaces and no control bytes; a file's line is not empty and has no line end in it.
abbrev pub is_graphic : ℕ → Bool
is_graphic c = ltb 32 c

abbrev pub is_line : List ℕ → Bool
is_line l = not (is_empty l) && (not (contains l 10) && not (contains l 13))

graphic-absent :
    (k : ℕ) (text : List ℕ)
    → ltb 32 k ≡ false
    → all is_graphic text ≡ true
    → contains text k ≡ false
graphic-absent k [] h g = refl
graphic-absent k (c ∷ text) h g =
    let (first, others) = &&-true {a = is_graphic c} g in
    let other : (c == k) ≡ false = ground (arith, first, h) in
    rw (other, graphic-absent k text h others) refl

-- A name that goes on with a dot does not begin with words before it.
strip_prefix-words :
    (word after name r : List ℕ)
    → contains word 46 ≡ false
    → all is_graphic name ≡ true
    → strip_prefix (word ++ (32 ∷ after)) (name ++ (46 ∷ r)) ≡ none
strip_prefix-words [] after [] r h g = refl
strip_prefix-words (q ∷ word) after [] r h g = ground (arith, h)
strip_prefix-words [] after (c ∷ name) r h g = ground (arith, g)
strip_prefix-words (q ∷ word) after (c ∷ name) r h g =
    ground (arith, h, g, strip_prefix-words word after name r)

starts_with-words :
    (word after name r : List ℕ)
    → contains word 46 ≡ false
    → all is_graphic name ≡ true
    → starts_with (word ++ (32 ∷ after)) (name ++ (46 ∷ r)) ≡ false
starts_with-words [] after [] r h g = refl
starts_with-words (q ∷ word) after [] r h g = ground (arith, h)
starts_with-words [] after (c ∷ name) r h g = ground (arith, g)
starts_with-words (q ∷ word) after (c ∷ name) r h g =
    ground (arith, h, g, starts_with-words word after name r)

lines_from-files :
    (files : List (List ℕ))
    → all is_line files ≡ true
    → lines_from [] (flatten (map (λ l. l ++ (10 ∷ [])) files)) ≡ files
unfolding lines_from
lines_from-files [] h = refl
lines_from-files (l ∷ files) h =
    let (first, others) = &&-true {a = is_line l} h in
    let ends : (not (contains l 10) && not (contains l 13)) ≡ true =
      (&&-true {a = not (is_empty l)} first).1 in
    let no_newline : contains l 10 ≡ false = ground (arith, ends) in
    let no_return : contains l 13 ≡ false = ground (arith, ends) in
    ap (lines_from []) (append_assoc l (10 ∷ []) _)
    ∙ lines_from-append [] l _ no_newline
    ∙ ap (λ x. x ∷ lines_from [] (flatten (map (λ y. y ++ (10 ∷ [])) files)))
        (strip_cr-absent l no_return)
    ∙ ap (λ ls. l ∷ ls) (lines_from-files files others)

filter-files :
    (files : List (List ℕ))
    → all is_line files ≡ true
    → filter (λ l. not (is_empty l)) files ≡ files
filter-files [] h = refl
filter-files (l ∷ files) h =
    let (first, others) = &&-true {a = is_line l} h in
    let filled : not (is_empty l) ≡ true = (&&-true {a = not (is_empty l)} first).0 in
    rw filled (ap (λ ls. l ∷ ls) (filter-files files others))

extract_ahead :
    (a : ℕ) (ahead behind : List ℕ)
    → a < 2 ^ 32
    → Prints a ahead
    → extract_count (brackets ahead behind) (codes "ahead ") ≡ some a
unfolding extract_count
extract_ahead a ahead behind h p =
    ap count_after (
      split_first-append 97 (codes "head ") []
        (ahead ++ (codes ", behind " ++ (behind ++ codes "]"))) refl)
    ∙ ap parse_u32 (leading_digits-append ahead 44 _ p.digits refl)
    ∙ parse_u32-Prints a ahead h p

extract_behind :
    (a b : ℕ) (ahead behind : List ℕ)
    → b < 2 ^ 32
    → Prints a ahead
    → Prints b behind
    → extract_count (brackets ahead behind) (codes "behind ") ≡ some b
unfolding extract_count
extract_behind a b ahead behind h pa p =
    ap (λ t. count_after (split_first (codes "behind ") (codes "ahead " ++ t)))
      (sym (append_assoc ahead (codes ", ") (codes "behind " ++ (behind ++ codes "]"))))
    ∙ ap count_after (
        split_first-append 98 (codes "ehind ") (codes "ahead " ++ (ahead ++ codes ", "))
          (behind ++ codes "]") no_b)
    ∙ ap parse_u32 (leading_digits-append behind 93 [] p.digits refl)
    ∙ parse_u32-Prints b behind h p
  where
    no_b : contains (codes "ahead " ++ (ahead ++ codes ", ")) 98 ≡ false
    no_b = contains-append ahead (codes ", ") 98 ∙ rw (digits-absent 98 ahead refl pa.digits) refl

from_header-lem :
    (a b : ℕ) (branch upstream ahead behind : List ℕ)
    → IsRefName branch
    → all is_graphic branch ≡ true
    → all is_graphic upstream ≡ true
    → a < 2 ^ 32
    → b < 2 ^ 32
    → Prints a ahead
    → Prints b behind
    → let text = header branch upstream ahead behind in
      from_header text (strip_prefix (codes "No commits yet on ") text)
      ≡ record { branch = branch; dirty = 0; ahead = a; behind = b; upstream = some upstream }
unfolding from_header from_branch with_dots with_upstream
from_header-lem a b branch upstream ahead behind name gb gu ha hb pa pb =
    ap (from_header text)
      (strip_prefix-words (codes "No") (codes "commits yet on ") branch (46 ∷ (46 ∷ after)) refl gb)
    ∙ ap
        (λ c.
          if c
          then record empty_info { branch = codes "HEAD" }
          else with_dots text (split_first (codes "...") text))
        (starts_with-words (codes "HEAD") (codes "(no branch)") branch (46 ∷ (46 ∷ after)) refl gb)
    ∙ ap (with_dots text) (split_first-dots branch after name)
    ∙ ap (with_upstream branch after) (
        split_first-append 32 (91 ∷ []) upstream (brackets ahead behind)
          (graphic-absent 32 upstream refl gu))
    ∙ ap₂
        (λ m n. record {
          branch = branch;
          dirty = 0;
          ahead = or_zero m;
          behind = or_zero n;
          upstream = some upstream;
        })
        (extract_ahead a ahead behind ha pa) (extract_behind a b ahead behind hb pa pb)
  where
    after : List ℕ
    after = upstream ++ (codes " [" ++ brackets ahead behind)

    text : List ℕ
    text = header branch upstream ahead behind

absent-append :
    (k : ℕ) (xs ys : List ℕ)
    → contains xs k ≡ false
    → contains ys k ≡ false
    → contains (xs ++ ys) k ≡ false
absent-append k xs ys h g = contains-append xs ys k ∙ rw (h, g) refl

-- A control byte does not occur in a text of others.
control-absent :
    (k : ℕ) (text : List ℕ) → k < 32 → all (leb 32) text ≡ true → contains text k ≡ false
control-absent k [] h g = refl
control-absent k (c ∷ text) h g =
    let (first, others) = &&-true {a = leb 32 c} g in
    let other : (c == k) ≡ false = ground (arith, first, h) in
    rw (other, control-absent k text h others) refl

header-absent :
    (k a b : ℕ) (branch upstream ahead behind : List ℕ)
    → k < 32
    → all is_graphic branch ≡ true
    → all is_graphic upstream ≡ true
    → Prints a ahead
    → Prints b behind
    → contains (codes "## " ++ header branch upstream ahead behind) k ≡ false
header-absent k a b branch upstream ahead behind h gb gu pa pb =
    absent-append k (codes "## ") _ (control-absent k (codes "## ") h refl) (
      absent-append k branch _ (graphic-absent k branch low gb) (
        absent-append k (codes "...") _ (control-absent k (codes "...") h refl) (
          absent-append k upstream _ (graphic-absent k upstream low gu) (
            absent-append k (codes " [ahead ") _ (control-absent k (codes " [ahead ") h refl) (
              absent-append k ahead _ (digits-absent k ahead no_digit pa.digits) (
                absent-append k (codes ", behind ") _ (control-absent k (codes ", behind ") h refl)
                  (absent-append k behind (codes "]") (digits-absent k behind no_digit pb.digits)
                    (control-absent k (codes "]") h refl))))))))
  where
    low : ltb 32 k ≡ false
    low = ground (arith, h)

    no_digit : is_digit k ≡ false
    no_digit = ground (arith, h)

-- The output for a branch with an upstream, ahead and behind of it, with lines of changed files, is
-- read as these: the branch is a name in which every dot is followed by a byte that is no dot, both
-- names have no spaces or control bytes, the counts are decimal numbers of u32, and no line is empty
-- or has a line end in it.
pub parse_porcelain-status :
    (a b : ℕ) (branch upstream ahead behind : List ℕ) (files : List (List ℕ))
    → IsRefName branch
    → all is_graphic branch ≡ true
    → all is_graphic upstream ≡ true
    → a < 2 ^ 32
    → b < 2 ^ 32
    → Prints a ahead
    → Prints b behind
    → all is_line files ≡ true
    → parse_porcelain (status branch upstream ahead behind files) ≡ record {
      branch = branch;
      dirty = u32 (length files);
      ahead = a;
      behind = b;
      upstream = some upstream;
    }
unfolding parse_porcelain parse_lines from_lines
parse_porcelain-status a b branch upstream ahead behind files name gb gu ha hb pa pb lines_ok =
    ap parse_lines split_lines
    ∙ ap (λ o. from_lines o files)
        (strip_prefix-append (codes "## ") (header branch upstream ahead behind))
    ∙ ap₂ (λ (info : GitInfo) (ls : List (List ℕ)). record info { dirty = u32 (length ls) })
        (from_header-lem a b branch upstream ahead behind name gb gu ha hb pa pb)
        (filter-files files lines_ok)
  where
    first : List ℕ
    first = codes "## " ++ header branch upstream ahead behind

    split_lines : lines (status branch upstream ahead behind files) ≡ first ∷ files
    split_lines =
        lines_from-append [] first _
          (header-absent 10 a b branch upstream ahead behind (omega arith) gb gu pa pb)
        ∙ ap₂ (λ l ls. l ∷ ls)
            (strip_cr-absent first
              (header-absent 13 a b branch upstream ahead behind (omega arith) gb gu pa pb))
            (lines_from-files files lines_ok)
