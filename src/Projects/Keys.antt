-- ===== src/Projects/Keys.antt =====
-- project.service.ts: the key of a project, from its name. A character counts as one, also outside
-- the basic plane.
use Prim.Native.Char.{code}
use Prim.Native.String
use multi_tenant_project_man.Base.{
  ℕ, zero, suc, String, Bool, List, [], ◌∷◌, ◌==◌, ◌&&◌, ◌||◌, if◌then◌else◌, leb, nat_eq, length,
}
use multi_tenant_project_man.World.{Runtime}

-- `\s`
abbrev pub is_space : ℕ → Bool
is_space c =
    (leb 9 c && leb c 13)
    || (nat_eq c 32
        || (nat_eq c 160
            || (nat_eq c 5760
                || ((leb 8192 c && leb c 8202)
                    || (nat_eq c 8232
                        || (nat_eq c 8233
                            || (nat_eq c 8239
                                || (nat_eq c 8287 || (nat_eq c 12288 || nat_eq c 65279)))))))))

-- `[A-Z0-9]`, and with the flag `i`
abbrev pub is_key_char : ℕ → Bool
is_key_char c = (leb 65 c && leb c 90) || (leb 48 c && leb c 57)

abbrev pub is_alphanumeric : ℕ → Bool
is_alphanumeric c = is_key_char c || (leb 97 c && leb c 122)

-- `s.replace(/[^...]/g, '')`
abbrev pub keep : (ℕ → Bool) → String → String
keep p String.[] = String.[]
keep p (String.◌∷◌ c s) = let rest = keep p s in if p (code c) then String.◌∷◌ c rest else rest

-- `s.slice(0, n)`
unfoldable pub prefix : ℕ → String → String
prefix zero s = String.[]
prefix (suc n) String.[] = String.[]
prefix (suc n) (String.◌∷◌ c s) = String.◌∷◌ c (prefix n s)

abbrev push : String → List String → List String
push word words = if word == "" then words else word ∷ words

-- The word that a text begins with, and the words after it.
abbrev split : String → String × List String
split String.[] = (String.[], [])
split (String.◌∷◌ c s) =
    let (word, words) = split s in
    if is_space (code c) then (String.[], push word words) else (String.◌∷◌ c word, words)

-- `s.split(/\s+/).filter(Boolean)`
abbrev pub words_of : String → List String
words_of s = let (word, words) = split s in push word words

-- `words.map((w) => w[0]).join('')`
abbrev pub initials : List String → String
initials [] = String.[]
initials (String.[] ∷ words) = initials words
initials ((String.◌∷◌ c s) ∷ words) = String.◌∷◌ c (initials words)

-- `s || other`
abbrev or_text : String → String → String
or_text s other = if s == "" then other else s

unfoldable pub extract_key_from_name : Runtime → String → String
unfolding prefix
extract_key_from_name rt name =
    let words = words_of (keep (λ c. is_key_char c || is_space c) (rt.to_upper_case name)) in
    if leb 2 (length words)
    then prefix 5 (initials words)
    else rt.to_upper_case (or_text (prefix 4 (keep is_alphanumeric name)) "PRJ")

-- `${baseKey.slice(0, 4)}${counter}`
unfoldable pub candidate_key : Runtime → String → ℕ → String
unfolding prefix
candidate_key rt base_key counter = String.◌++◌ (prefix 4 base_key) (rt.number_text counter)
