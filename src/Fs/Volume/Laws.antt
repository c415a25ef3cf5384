-- ===== src/Fs/Volume/Laws.antt =====
-- The steps of an action, one after the other.
use assembly_os.Prelude.{◌≡◌, refl, ap, Option, none, some}
use assembly_os.Fs.Volume.{Act, Volume, on_device, ◌>>=◌}

-- What a result is passed on to.
abbrev pub resume : {S A B : Type 0} → (A → Act S B) → Option (A × S) → Option (B × S)
resume f none = none
resume f (some (a, s)) = f a s

pub bind-eq :
    {S A B : Type 0} (m : Act S A) (f : A → Act S B) (s : S) (o : Option (A × S))
    → m s ≡ o
    → (m >>= f) s ≡ resume f o
bind-eq {S} {A} {B} m f s o e = ap (resume f) (e)

pub on_device-eq :
    {D A : Type 0} (f : D → Option (A × D)) (v : Volume D) (a : A) (d : D)
    → f v.device ≡ some (a, d)
    → on_device f v ≡ some (a, record v { device = d })
on_device-eq f v a d e = rw (on_device, e) refl
