-- ===== src/Adapters/Member.antt =====
-- A Go `map[string]bool` whose values are all true, read as a set of names.
use dyndao.Base.{String, ◌≡◌, Bool, true, false, ◌&&◌, ◌||◌, List, [], ◌∷◌, arith, ◌==◌, eq_iff}

unfoldable pub member : String → List String → Bool
member k [] = false
member k (x ∷ xs) = (x == k) || member k xs

unfoldable pub every : (String → Bool) → List String → Bool
every p [] = true
every p (x ∷ xs) = p x && every p xs

-- What holds of every name of a list holds of its members.
pub every-member :
    (p : String → Bool) (k : String) (xs : List String)
    → every p xs ≡ true
    → member k xs ≡ true
    → p k ≡ true
unfolding member every
every-member p k [] h m = cc
every-member p k (x ∷ xs) h m = ground (arith, eq_iff x k, every-member p k xs)
