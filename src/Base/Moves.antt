-- ===== src/Base/Moves.antt =====
-- Parts of a list that change their places.
use mathlib.Core.Path.{◌≡◌, sym}
use mathlib.Core.List.{List, ◌++◌, append_assoc, Perm, perm_append_comm}
use mathlib.Core.List.Perm

module _ {A : Type 0} where
  pub perm_cast : {k l m n : List A} → k ≡ l → m ≡ n → Perm k m → Perm l n
  perm_cast e f p = rw (sym e, sym f) p

  pub perm_front : (x o y : List A) → Perm (x ++ (o ++ y)) (o ++ (x ++ y))
  perm_front x o y =
      perm_cast (append_assoc x o y) (append_assoc o x y)
        (Perm.append_right y (perm_append_comm x o))

  pub perm_past :
      (f e e' o r r' : List A)
      → Perm (f ++ (e ++ r)) (e' ++ r')
      → Perm (f ++ (e ++ (o ++ r))) (e' ++ (o ++ r'))
  perm_past f e e' o r r' p = Perm.trans (Perm.append_left f (perm_front e o r)) (
      Perm.trans (perm_front f o (e ++ r)) (Perm.trans (Perm.append_left o p) (perm_front o e' r')))

  pub perm_within : (f o r r' : List A) → Perm r (f ++ r') → Perm (o ++ r) (f ++ (o ++ r'))
  perm_within f o r r' p = Perm.trans (Perm.append_left o p) (perm_front o f r')
