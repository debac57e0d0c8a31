-- ===== src/Glob.antt =====
-- Patterns: uvm_glob_to_re and uvm_is_match of src/uvmsc/base/uvm_globals.cpp. A string is the list of its
-- characters' codes. The regular expressions themselves are the C++ library's: the match of one is a
-- parameter. The text is made in a static buffer of 2048 characters with a terminator, which the model
-- does not have: whether a text fits in it is the matter of Glob/Buffer.
pub mod Buffer
mod Samples
use uvm_systemc.Common.{
  ℕ, zero, suc, ◌+◌, Bool, true, false, not, ◌&&◌, ◌||◌, List, [], ◌∷◌, ◌++◌, ◌==◌, ltb,
  if◌then◌else◌, length,
}

-- The codes of `/ ^ $ * + . ? [ ( ) \`.
abbrev pub slash : ℕ
slash = 47

abbrev pub caret : ℕ
caret = 94

abbrev pub dollar : ℕ
dollar = 36

abbrev pub star : ℕ
star = 42

abbrev pub plus : ℕ
plus = 43

abbrev pub dot : ℕ
dot = 46

abbrev pub question : ℕ
question = 63

abbrev pub bracket : ℕ
bracket = 91

abbrev pub paren : ℕ
paren = 40

abbrev pub close_paren : ℕ
close_paren = 41

abbrev pub backslash : ℕ
backslash = 92

-- What stands for a character of the glob.
abbrev pub translate : ℕ → List ℕ
translate c =
    if c == star
    then dot ∷ star ∷ []
    else if c == plus
    then dot ∷ plus ∷ []
    else if c == dot
    then backslash ∷ dot ∷ []
    else if c == question
    then dot ∷ []
    else if c == bracket
    then backslash ∷ bracket ∷ []
    else if c == paren
    then backslash ∷ paren ∷ []
    else if c == close_paren
    then backslash ∷ close_paren ∷ []
    else c ∷ []

abbrev pub translate_all : List ℕ → List ℕ
translate_all [] = []
translate_all (c ∷ cs) = translate c ++ translate_all cs

abbrev pub starts_with : ℕ → List ℕ → Bool
starts_with x [] = false
starts_with x (c ∷ cs) = c == x

abbrev pub ends_with : ℕ → List ℕ → Bool
ends_with x [] = false
ends_with x (c ∷ []) = c == x
ends_with x (c ∷ d ∷ cs) = ends_with x (d ∷ cs)

unfoldable pub uvm_glob_to_re : List ℕ → List ℕ
uvm_glob_to_re glob =
    let head = slash ∷ (if starts_with caret glob then [] else caret ∷ []) in
    let text = head ++ translate_all glob in
    if ltb 2040 (length glob)
    then glob
    else if (length glob == 0) || ((length glob == 1) && starts_with slash glob)
    then []
    else if starts_with slash glob && ends_with slash glob
    then glob
    else (if ends_with dollar text then text else text ++ (dollar ∷ [])) ++ (slash ∷ [])

-- `re_match` answers whether a text matches a regular expression without its slashes.
unfoldable pub without_slashes : List ℕ → List ℕ
without_slashes [] = []
without_slashes (c ∷ cs) =
    if ltb 1 (length (c ∷ cs)) && (c == slash) && ends_with slash (c ∷ cs)
    then but_last cs
    else c ∷ cs
  where
    but_last : List ℕ → List ℕ
    but_last [] = []
    but_last (c ∷ []) = []
    but_last (c ∷ d ∷ cs) = c ∷ but_last (d ∷ cs)

unfoldable pub uvm_is_match : (List ℕ → List ℕ → Bool) → List ℕ → List ℕ → Bool
unfolding uvm_glob_to_re without_slashes
uvm_is_match re_match expr text = re_match (without_slashes (uvm_glob_to_re expr)) text

abbrev contains : ℕ → List ℕ → Bool
contains x [] = false
contains x (c ∷ cs) = if c == x then true else contains x cs

unfoldable pub uvm_has_wildcard : List ℕ → Bool
uvm_has_wildcard arg =
    contains star arg || contains question arg || contains plus arg || starts_with slash arg
