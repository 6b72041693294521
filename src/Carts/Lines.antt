-- ===== src/Carts/Lines.antt =====
-- domain/cart/cart.go: the lines of a cart, and the loops of its methods over them. A loop that
-- looks for a product and finds none is `none`.
use mall.Base.{String, Option, none, some, List, [], ◌∷◌, if◌then◌else◌, ℤ, add64, mul64, eqb_ℤ}
use mall.Kernel.{KernelId}

pub record CartItem : Type 0 where
  pub product_id : KernelId
  pub sku : String
  pub name : String
  pub quantity : ℤ
  pub unit_price : ℤ
  pub image_url : String

unfoldable pub item_price : CartItem → ℤ
item_price i = mul64 i.unit_price i.quantity

abbrev pub onto : Option (List CartItem) → CartItem → Option (List CartItem)
onto none i = none
onto (some is) i = some (i ∷ is)

-- What `AddItem` writes over a line of the same product.
unfoldable pub renewed : CartItem → CartItem → CartItem
renewed item existing = record existing {
  quantity = add64 existing.quantity item.quantity;
  name = item.name;
  unit_price = item.unit_price;
  image_url = item.image_url;
}

-- `AddItem`'s loop, and its append where the loop ends.
unfoldable pub put_item : CartItem → List CartItem → List CartItem
put_item item [] = item ∷ []
put_item item (existing ∷ items) =
    if eqb_ℤ existing.product_id item.product_id
    then renewed item existing ∷ items
    else existing ∷ put_item item items

-- `UpdateQuantity`'s loop.
unfoldable pub put_quantity : KernelId → ℤ → List CartItem → Option (List CartItem)
put_quantity p q [] = none
put_quantity p q (i ∷ items) =
    if eqb_ℤ i.product_id p
    then some (record i { quantity = q } ∷ items)
    else onto (put_quantity p q items) i

-- `RemoveItem`'s loop.
unfoldable pub drop_item : KernelId → List CartItem → Option (List CartItem)
drop_item p [] = none
drop_item p (i ∷ items) = if eqb_ℤ i.product_id p then some items else onto (drop_item p items) i

-- `GetTotal`'s loop.
unfoldable pub add_up : ℤ → List CartItem → ℤ
add_up subtotal [] = subtotal
add_up subtotal (i ∷ items) = add_up (add64 subtotal (item_price i)) items
