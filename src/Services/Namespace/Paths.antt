-- ===== src/Services/Namespace/Paths.antt =====
-- services/namespace.c, path_utf8 and path_ok: a path is the list of the bytes before its zero.
use spirit_fox_os.Prelude.{
  ℕ, zero, suc, ◌+◌, ◌*◌, ◌/◌, ◌%◌, Bool, true, false, not, ◌&&◌, ◌||◌, ◌==◌, ltb, leb,
  if◌then◌else◌, List, [], ◌∷◌, ◌++◌, length,
}
use spirit_fox_os.Services.Txn.Paths.{is_dots, ends_in_slash}

-- A character that may stand in a path: not an overlong form, a surrogate, or above 0x10ffff.
abbrev pub character_ok : ℕ → ℕ → Bool
character_ok least c = not (ltb c least || (ltb 1114111 c || (leb 55296 c && leb c 57343)))

-- The loop, with the continuation bytes that the character c still needs.
abbrev pub utf8_ok : ℕ → ℕ → ℕ → List ℕ → Bool
utf8_ok zero c least [] = true
utf8_ok (suc k) c least [] = false
utf8_ok zero c least (x ∷ s) =
    if ltb x 32
    then false
    else (if ltb x 128
        then utf8_ok 0 0 0 s
        else (if leb 194 x && leb x 223
            then utf8_ok 1 (x % 32) 128 s
            else (if leb 224 x && leb x 239
                then utf8_ok 2 (x % 16) 2048 s
                else (if leb 240 x && leb x 244 then utf8_ok 3 (x % 8) 65536 s else false))))
utf8_ok (suc k) c least (x ∷ s) =
    if x / 64 == 2
    then (let v = c * 64 + x % 64 in
        if k == 0 then character_ok least v && utf8_ok 0 0 0 s else utf8_ok k v least s)
    else false

-- The components between the slashes; only "/" itself has an empty one.
abbrev pub names_ok : List ℕ → List ℕ → Bool
names_ok name [] = not (is_dots name)
names_ok name (c ∷ s) =
    if c == 47
    then not (length name == 0) && (not (is_dots name) && names_ok [] s)
    else names_ok (name ++ (c ∷ [])) s

abbrev pub path_bytes : ℕ
path_bytes = 95

unfoldable pub ns_path_ok : List ℕ → Bool
ns_path_ok [] = false
ns_path_ok (c ∷ s) =
    c == 47
    && (leb (length (c ∷ s)) path_bytes
        && (not (ltb 1 (length (c ∷ s)) && ends_in_slash (c ∷ s))
            && (utf8_ok 0 0 0 (c ∷ s) && names_ok [] s)))

abbrev pub root_path : List ℕ
root_path = 47 ∷ []

-- strlen(path)<len||memcmp(path,root,len)||(path[len]&&path[len]!='/'), negated
unfoldable pub beneath : List ℕ → List ℕ → Bool
beneath [] [] = true
beneath [] (c ∷ s) = c == 47
beneath (r ∷ root) [] = false
beneath (r ∷ root) (c ∷ s) = r == c && beneath root s

-- The path of a request relative to a directory, or none for SF_INVALID.
unfoldable pub relative_path : List ℕ → List ℕ → List ℕ
relative_path base relative = base ++ (if length base == 1 then relative else 47 ∷ relative)

unfoldable pub relative_ok : List ℕ → List ℕ → Bool
relative_ok base [] = false
relative_ok base (c ∷ s) =
    not (c == 47)
    && (leb (length (c ∷ s)) path_bytes
        && (leb (length (relative_path base (c ∷ s))) path_bytes
            && ns_path_ok (relative_path base (c ∷ s))))

-- The part of the path before its last slash, "/" for the paths at the top.
abbrev pub parent_from : List ℕ → List ℕ → List ℕ → List ℕ
parent_from found read [] = found
parent_from found read (c ∷ s) =
    if c == 47
    then parent_from read (read ++ (c ∷ [])) s
    else parent_from found (read ++ (c ∷ [])) s

unfoldable pub parent_path : List ℕ → List ℕ
parent_path p = let found = parent_from [] [] p in if length found == 0 then root_path else found
