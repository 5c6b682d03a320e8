-- ===== src/Services/Txn/Paths.antt =====
-- services/txn.c, path_ok: the paths that a snapshot may hold. A path is the list of the bytes
-- before its terminating zero.
use spirit_fox_os.Prelude.{
  ℕ, Bool, true, false, not, ◌&&◌, ◌||◌, ◌==◌, ltb, leb, if◌then◌else◌, List, [], ◌∷◌, length, ◌++◌,
}

-- The string in an array of characters: the bytes before the first zero.
abbrev pub cstring : List ℕ → List ℕ
cstring [] = []
cstring (c ∷ s) = if c == 0 then [] else c ∷ cstring s

-- The length of an array of 64 bytes, n==64, when it has no zero byte.
abbrev pub path_limit : ℕ
path_limit = 64

-- The first loop, over the bytes after the first: `previous` is p[i-1].
abbrev pub characters_ok : ℕ → List ℕ → Bool
characters_ok previous [] = true
characters_ok previous (c ∷ s) =
    not (ltb c 33 || (ltb 126 c || (c == 92 || (c == 47 && (previous == 47))))) && characters_ok c s

-- (j-i==1&&p[i]=='.')||(j-i==2&&p[i]=='.'&&p[i+1]=='.')
abbrev pub is_dots : List ℕ → Bool
is_dots (a ∷ []) = a == 46
is_dots (a ∷ b ∷ []) = a == 46 && (b == 46)
is_dots s = false

-- The second loop: the components between the slashes, `name` being the bytes from i to j.
abbrev pub components_ok : List ℕ → List ℕ → Bool
components_ok name [] = not (is_dots name)
components_ok name (c ∷ s) =
    if c == 47 then not (is_dots name) && components_ok [] s else components_ok (name ++ (c ∷ [])) s

abbrev pub ends_in_slash : List ℕ → Bool
ends_in_slash [] = false
ends_in_slash (c ∷ []) = c == 47
ends_in_slash (c ∷ d ∷ s) = ends_in_slash (d ∷ s)

unfoldable pub path_ok : List ℕ → Bool
path_ok [] = false
path_ok (c ∷ s) =
    not (
      ltb (length (c ∷ s)) 2
      || (leb path_limit (length (c ∷ s)) || (not (c == 47) || ends_in_slash (c ∷ s))))
    && (characters_ok c s && components_ok [] s)
