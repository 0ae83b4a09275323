-- ===== src/Engine/Parser/Source.antt =====
-- engine/esma_template.c: esma_template_set_by_str and esma_template_set_by_path.
use esma.Base.{
  ℕ, zero, suc, ◌+◌, ◌≤◌, ◌≡◌, refl, Option, none, some, List, [], ◌∷◌, ◌++◌, length, get_elem?,
  ◌==◌, arith, if◌then◌else◌,
}
use esma.Engine.Types.{Template}
use esma.Engine.Parser.Text.{Text}
use esma.Engine.Parser.Terms.{Surroundings}
use esma.Engine.Parser.Decode.{Round, failed, overrun, decode}

-- The characters before the NUL.
unfoldable pub c_string : List ℕ → Text
c_string [] = []
c_string (c ∷ cs) = let rest = c_string cs in if c == 0 then [] else c ∷ rest

module _ (env : Surroundings) where
  -- `esma_template_set_by_str` of a block of memory.
  unfoldable pub set_by_str : List ℕ → ℕ → Template → Option Round
  unfolding c_string
  set_by_str block len et = elim (get_elem? block len) [
    | none ↦ some overrun
    | some c ↦ if c == 0 then decode env (c_string block) et else some failed
  ]

-- `while (1) { c = fgetc(file); if (EOF == c) break; … }`, where `c` is a char: byte 255 is EOF.
unfoldable pub read_file : List ℕ → List ℕ
read_file [] = []
read_file (c ∷ cs) = let rest = read_file cs in if c == 255 then [] else c ∷ rest

abbrev fill : List ℕ → List ℕ → List ℕ
fill [] old = old
fill (c ∷ cs) [] = []
fill (c ∷ cs) (o ∷ old) = c ∷ fill cs old

module _ (env : Surroundings) where
  -- `esma_template_set_by_path`; `file` is what the file holds if it can be opened, `malloc n` a
  -- block of `n` bytes if there is one. The file does not change while it is read.
  unfoldable pub set_by_path : (ℕ → Option (List ℕ)) → Option (List ℕ) → Template → Option Round
  unfolding read_file set_by_str
  set_by_path malloc none et = some failed
  set_by_path malloc (some []) et = some failed
  set_by_path malloc (some (c ∷ cs)) et = elim (malloc (length (c ∷ cs) + 1)) [
    | none ↦ some failed
    | some block ↦
        set_by_str env (fill (read_file (c ∷ cs) ++ 0 ∷ []) block) (length (c ∷ cs) + 1) et
  ]

length-fill : (cs old : List ℕ) → length (fill cs old) ≤ length old
length-fill [] old = omega arith
length-fill (c ∷ cs) [] = omega arith
length-fill (c ∷ cs) (o ∷ old) = omega (arith, length-fill cs old)

get_elem?-none : (xs : List ℕ) (n : ℕ) → length xs ≤ n → get_elem? xs n ≡ none
get_elem?-none [] n h = refl
get_elem?-none (x ∷ xs) zero h = absurd (omega arith)
get_elem?-none (x ∷ xs) (suc n) h = get_elem?-none xs n (omega arith)

-- Whenever a file that is not empty is opened and the memory is there, the byte behind the buffer is
-- read.
pub set_by_path-overrun :
    (env : Surroundings) (malloc : ℕ → Option (List ℕ)) (c : ℕ) (cs block : List ℕ) (et : Template)
    → malloc (length (c ∷ cs) + 1) ≡ some block
    → length block ≡ length (c ∷ cs) + 1
    → set_by_path env malloc (some (c ∷ cs)) et ≡ some overrun
unfolding set_by_path set_by_str
set_by_path-overrun env malloc c cs block et m l =
    let filled = fill (read_file (c ∷ cs) ++ 0 ∷ []) block in
    let behind : get_elem? filled (length (c ∷ cs) + 1) ≡ none =
      get_elem?-none filled (length (c ∷ cs) + 1)
        (omega (arith, length-fill (read_file (c ∷ cs) ++ 0 ∷ []) block)) in
    rw (set_by_path, m) (rw (set_by_str, behind) refl)
