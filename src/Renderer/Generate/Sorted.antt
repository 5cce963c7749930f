-- ===== src/Renderer/Generate/Sorted.antt =====
-- renderer.py `generate`: sorting the datapoints by address keeps what holds of each.
use mathlib.Core.List.{Memᴰ}
use esphome_vitohome.Common.{leb, All, refl, List, [], ◌∷◌}
use esphome_vitohome.Catalog.Floats.{Floats}
use esphome_vitohome.Renderer.Generate.{insert, key_of, sorted}
use esphome_vitohome.Renderer.Keys.{Item}
use esphome_vitohome.Renderer.Generate.Guards.{either_where}

module _ (F : Floats) (P : Item F.Float → Type 0) where
  insert-All :
      (it : Item F.Float) (its : List (Item F.Float)) → P it → All P its → All P (insert F it its)
  insert-All it [] p h = (p, tt)
  insert-All it (jt ∷ its) p (q, h) =
      either_where (All P) (leb (key_of F it) (key_of F jt)) _ _ (λ e. (p, (q, h)))
        (λ e. (q, insert-All it its p h))

  pub sorted-All : (its : List (Item F.Float)) → All P its → All P (sorted F its)
  sorted-All [] h = tt
  sorted-All (it ∷ its) (p, h) = insert-All it (sorted F its) p (sorted-All its h)

pub all_listed : {A : Type 0} (xs : List A) → All (λ x. Memᴰ x xs) xs
all_listed [] = tt
all_listed (x ∷ xs) = (Memᴰ.head refl, All-weaken xs xs x (all_listed xs))
  where
    All-weaken :
        {A : Type 0} (xs ys : List A) (y : A)
        → All (λ x. Memᴰ x ys) xs
        → All (λ x. Memᴰ x (y ∷ ys)) xs
    All-weaken [] ys y h = tt
    All-weaken (x ∷ xs) ys y (m, h) = (Memᴰ.tail m, All-weaken xs ys y h)
