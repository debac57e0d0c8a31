-- ===== src/Glob/Samples.antt =====
-- Globs and what they are turned into.
use uvm_systemc.Common.{ℕ, ◌+◌, ◌≡◌, ◌≤◌, ◌<◌, refl, true, List, [], ◌∷◌, arith, length, replicate}
use uvm_systemc.Glob.{
  slash, caret, dollar, star, dot, backslash, question, uvm_glob_to_re, uvm_has_wildcard,
}
use uvm_systemc.Glob.Buffer.{uvm_glob_to_re-fits}

-- `a.?`
abbrev a_dot_any : List ℕ
a_dot_any = 97 ∷ dot ∷ question ∷ []

turned : uvm_glob_to_re a_dot_any ≡ slash ∷ caret ∷ 97 ∷ backslash ∷ dot ∷ dot ∷ dollar ∷ slash ∷ []
unfolding uvm_glob_to_re
turned = refl

has_wildcard : uvm_has_wildcard a_dot_any ≡ true
unfolding uvm_has_wildcard
has_wildcard = refl

uvm_glob_to_re-fits_example :
    (length (uvm_glob_to_re a_dot_any) + 1 ≤ 2048)
    × (2048 < length (uvm_glob_to_re (replicate 1023 star)) + 1)
uvm_glob_to_re-fits_example =
    uvm_glob_to_re-fits a_dot_any 1023 (omega arith) (omega arith) (omega arith)
