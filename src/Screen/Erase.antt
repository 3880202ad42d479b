-- ===== src/Screen/Erase.antt =====
-- The mouse cursor erases what it has drawn.
use mikanos_m1mac.Base.{ℕ, zero, suc, ◌+◌, ◌≡◌, refl, sym, ◌∙◌, ap, ap₂, List, [], ◌∷◌, ◌++◌, map}
use mikanos_m1mac.Screen.{PixelColor, Pixel, Vector2D, loop, add_vector}
use mikanos_m1mac.Screen.Cursor.{
  Dot, at, dot, gap, MouseCursor, draw_dot, erase_dot, shape_at, draw_mouse_cursor,
  erase_mouse_cursor, move_relative,
}

-- Where a pixel is.
abbrev pub spot : Pixel → ℕ × ℕ
spot p = (p.x, p.y)

map-append {ℓ κ} :
    {A : Type ℓ} {B : Type κ} (f : A → B) (xs ys : List A) → map f (xs ++ ys) ≡ map f xs ++ map f ys
map-append f [] ys = refl
map-append f (x ∷ xs) ys = ap (λ t. f x ∷ t) (map-append f xs ys)

-- Loops whose rounds draw at the same places draw at the same places.
loop-spots :
    (from n : ℕ) (f g : ℕ → List Pixel)
    → ((i : ℕ) → map spot (f i) ≡ map spot (g i))
    → map spot (loop from n f) ≡ map spot (loop from n g)
loop-spots from zero f g h = refl
loop-spots from (suc n) f g h =
    map-append spot (f from) (loop (from + 1) n f)
    ∙ ap₂ (λ a b. a ++ b) (h from) (loop-spots (from + 1) n f g h)
    ∙ sym (map-append spot (g from) (loop (from + 1) n g))

dot-spots :
    (c : PixelColor) (d : Dot) (x y : ℕ) → map spot (erase_dot c d x y) ≡ map spot (draw_dot d x y)
dot-spots c at x y = refl
dot-spots c dot x y = refl
dot-spots c gap x y = refl

-- The pixels that `EraseMouseCursor` writes are those that `DrawMouseCursor` writes there, in the
-- same order.
erase-draw :
    (position : Vector2D) (c : PixelColor)
    → map spot (erase_mouse_cursor position c) ≡ map spot (draw_mouse_cursor position)
unfolding erase_mouse_cursor draw_mouse_cursor
erase-draw position c =
    loop-spots 0 24 _ _ λ dy.
      loop-spots 0 15 _ _ λ dx. dot-spots c (shape_at dy dx) (position.x + dx) (position.y + dy)

-- The second of two moves writes first exactly the places at which the first one has drawn the
-- cursor, in the same order, and then the places of the cursor moved by both displacements; there
-- the cursor is afterwards.
pub move_relative-erases :
    (a b : Vector2D) (m : MouseCursor)
    → (map spot (move_relative b (move_relative a m).1).0
        ≡ map spot (draw_mouse_cursor (add_vector m.position a))
          ++ map spot (draw_mouse_cursor (add_vector (add_vector m.position a) b)))
      × ((move_relative b (move_relative a m).1).1.position
          ≡ add_vector (add_vector m.position a) b)
unfolding move_relative
move_relative-erases a b m = (
  map-append spot (erase_mouse_cursor (add_vector m.position a) m.erase_color) _
      ∙ ap (λ t. t ++ map spot (draw_mouse_cursor (add_vector (add_vector m.position a) b)))
          (erase-draw (add_vector m.position a) m.erase_color),
  refl,
)
