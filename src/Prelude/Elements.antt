-- ===== src/Prelude/Elements.antt =====
-- Laws of the properties of some element, Any, and of Among.
use mathlib.Core.Path.{refl, sym, subst}
use mathlib.Core.Logic.{◌↔◌, ◌⊎◌, inl, inr}
use mathlib.Core.List.{List, [], ◌∷◌}
use native.Mathlib.Omega.{arith}
use mini_edr.Prelude.Lists.{All, Any, Among}

pub Any-or :
    {A : Type 0} (P Q : A → Type 0) (xs : List A) → Any (λ x. P x ⊎ Q x) xs ↔ (Any P xs ⊎ Any Q xs)
Any-or P Q [] = ground arith
Any-or P Q (x ∷ xs) = ground (arith, Any-or P Q xs)

pub Any-cong :
    {A : Type 0} (R P Q : A → Type 0) (xs : List A)
    → All R xs
    → ((x : A) → R x → P x ↔ Q x)
    → Any P xs ↔ Any Q xs
Any-cong R P Q [] all same = ground arith
Any-cong R P Q (x ∷ xs) all same = ground (arith, same x all.0, Any-cong R P Q xs all.1 same)

pub Any-both :
    {A : Type 0} (P : Type 0) (Q : A → Type 0) (xs : List A)
    → Any (λ x. P × Q x) xs ↔ (P × Any Q xs)
Any-both P Q [] = ground arith
Any-both P Q (x ∷ xs) = ground (arith, Any-both P Q xs)

pub Any-elim : {A : Type 0} (P : A → Type 0) (xs : List A) → Any P xs → (x : A) × Among x xs × P x
Any-elim P [] h = elim h [ ]
Any-elim P (x ∷ xs) (inl p) = (x, inl refl, p)
Any-elim P (x ∷ xs) (inr h) = let (y, at, p) = Any-elim P xs h in (y, inr at, p)

pub Among-Any : {A : Type 0} (P : A → Type 0) (xs : List A) (x : A) → P x → Among x xs → Any P xs
Among-Any P [] x px h = h
Among-Any P (y ∷ xs) x px (inl e) = inl (subst P (sym e) px)
Among-Any P (y ∷ xs) x px (inr h) = inr (Among-Any P xs x px h)
