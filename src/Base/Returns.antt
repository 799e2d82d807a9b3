-- ===== src/Base/Returns.antt =====
-- That a run returns a value with a property, composed along the code.
use libpussy.Base.{
  ◌≡◌, refl, Bool, true, false, if◌then◌else◌, Run, ok, aborted, undefined, blocked, ◌>>=◌,
}

unfoldable pub Returns : {B : Type 0} → (B → Type 0) → Run B → Type 0
Returns P (ok b) = P b
Returns P aborted = ⊥
Returns P undefined = ⊥
Returns P blocked = ⊥

pub Returns-bind :
    {B C : Type 0} {P : B → Type 0} (Q : C → Type 0) (r : Run B) (f : B → Run C)
    → Returns P r
    → ((b : B) → P b → Returns Q (f b))
    → Returns Q (r >>= f)
unfolding Returns
Returns-bind Q (ok b) f p next = next b p
Returns-bind Q aborted f p next = elim p [ ]
Returns-bind Q undefined f p next = elim p [ ]
Returns-bind Q blocked f p next = elim p [ ]

pub Returns-if :
    {B : Type 0} (P : B → Type 0) (test : Bool) (r r' : Run B)
    → Returns P r
    → Returns P r'
    → Returns P (if test then r else r')
Returns-if P true r r' p p' = p
Returns-if P false r r' p p' = p'

pub Returns-elim :
    {B : Type 0} (P : B → Type 0) (d : Bool) (r r' : Run B)
    → (d ≡ true → Returns P r)
    → (d ≡ false → Returns P r')
    → Returns P (elim d [ true ↦ r | false ↦ r' ])
Returns-elim P true r r' p p' = p refl
Returns-elim P false r r' p p' = p' refl

pub Returns-value :
    {B : Type 0} {P : B → Type 0} (r : Run B) → Returns P r → (b : B) × (r ≡ ok b) × P b
unfolding Returns
Returns-value (ok b) p = (b, refl, p)
Returns-value aborted p = elim p [ ]
Returns-value undefined p = elim p [ ]
Returns-value blocked p = elim p [ ]

pub Returns-weaken :
    {B : Type 0} {P : B → Type 0} (Q : B → Type 0) (r : Run B)
    → Returns P r
    → ((b : B) → P b → Q b)
    → Returns Q r
unfolding Returns
Returns-weaken Q (ok b) p weaker = weaker b p
Returns-weaken Q aborted p weaker = elim p [ ]
Returns-weaken Q undefined p weaker = elim p [ ]
Returns-weaken Q blocked p weaker = elim p [ ]
