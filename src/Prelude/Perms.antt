-- ===== src/Prelude/Perms.antt =====
-- Lists with the same elements.
use mathlib.Core.Path.{◌≡◌, refl, ap, subst, ◌∙◌}
use mathlib.Core.List.{List, map, Permᴰ}
use Prim.Native.Nat.{suc}
use dattaniddhi.Prelude.Lists.{All, length}

pub Perm-length : {A : Type 0} {xs ys : List A} → Permᴰ xs ys → length xs ≡ length ys
Perm-length Permᴰ.nil = refl
Perm-length (Permᴰ.cons e d) = ap suc (Perm-length d)
Perm-length (Permᴰ.swap e f) = refl
Perm-length (Permᴰ.trans d e) = Perm-length d ∙ Perm-length e

pub Perm-All : {A : Type 0} (P : A → Type 0) {xs ys : List A} → Permᴰ xs ys → All P xs → All P ys
Perm-All P Permᴰ.nil h = tt
Perm-All P (Permᴰ.cons e d) h = (subst P e h.0, Perm-All P d h.1)
Perm-All P (Permᴰ.swap e f) h = (subst P f h.1.0, (subst P e h.0, h.1.1))
Perm-All P (Permᴰ.trans d e) h = Perm-All P e (Perm-All P d h)

pub Perm-map :
    {A B : Type 0} (f : A → B) {xs ys : List A} → Permᴰ xs ys → Permᴰ (map f xs) (map f ys)
Perm-map f Permᴰ.nil = Permᴰ.nil
Perm-map f (Permᴰ.cons e d) = Permᴰ.cons (ap f e) (Perm-map f d)
Perm-map f (Permᴰ.swap e g) = Permᴰ.swap (ap f e) (ap f g)
Perm-map f (Permᴰ.trans d e) = Permᴰ.trans (Perm-map f d) (Perm-map f e)
