-- ===== src/Conversation/Responses.antt =====
-- app/conversation/responses.py: the replies.
use Prim.Native.String.{◌++◌ as str_append}
use vyapar_ai.Prelude.{
  ℕ, zero, suc, ◌-◌, ◌/◌, ◌%◌, String, Bool, List, [], ◌∷◌, length, leb, ltb, if◌then◌else◌,
}
use vyapar_ai.Prelude.Int.{ℤ, pos, negsuc, pos_part}
use vyapar_ai.Common.Decimal.{Decimal, scaled}
use vyapar_ai.Common.Text.{decimal, decimal_ℤ}
use vyapar_ai.Models.Catalog.{Product}

-- `str` of an amount of two places that is not negative.
unfoldable pub amount_text : Decimal → String
unfolding decimal scaled
amount_text d =
    let n = pos_part (scaled d 2) in
    let rest = decimal (n % 100) in
    str_append (decimal (n / 100))
      (str_append "." (if ltb (n % 100) 10 then str_append "0" rest else rest))

-- `products[:_MAX_LISTED]`
unfoldable pub first_products : ℕ → List Product → List Product
first_products zero products = []
first_products (suc n) [] = []
first_products (suc n) (p ∷ products) = p ∷ first_products n products

-- `", ".join(text(p) for p in products)`
unfoldable pub join_products : (Product → String) → List Product → String
join_products text [] = ""
join_products text (p ∷ []) = text p
join_products text (p ∷ q ∷ products) =
    str_append (text p) (str_append ", " (join_products text (q ∷ products)))

unfoldable pub product_text : Product → String
unfolding amount_text
product_text p = str_append p.name (
    str_append " (SKU "
      (str_append p.sku (str_append ", ₹" (str_append (amount_text p.price_amt) ")"))))

unfoldable pub search_results : List Product → String
unfolding decimal first_products join_products product_text
search_results products =
    let count = length products in
    let more = str_append " (+" (str_append (decimal (count - 5)) " more)") in
    str_append "Found " (
      str_append (decimal count) (
        str_append " product(s): " (
          str_append (join_products product_text (first_products 5 products))
            (str_append (if leb count 5 then "" else more) "."))))

unfoldable pub not_found : String → String
not_found query = str_append "Could not find a product matching '" (str_append query "'.")

unfoldable pub multiple_matches : String → List Product → String
unfolding first_products join_products
multiple_matches query products = str_append "I found multiple products matching '" (
    str_append query (
      str_append "': " (
        str_append (join_products (λ (p : Product). p.name) (first_products 5 products))
          ". Which one did you mean?")))

unfoldable pub stock_level : String → ℤ → String
unfolding decimal_ℤ
stock_level product_name quantity =
    str_append product_name
      (str_append " currently has " (str_append (decimal_ℤ quantity) " units in stock."))

unfoldable pub no_inventory : String → String
no_inventory product_name =
    str_append "There is no inventory record for " (str_append product_name " yet.")

-- `abs(delta)` of a delta below zero is the `suc n` of `negsuc n`.
unfoldable pub adjusted : String → ℤ → ℤ → String
unfolding decimal decimal_ℤ
adjusted product_name (pos n) quantity = str_append "Added " (
    str_append (decimal n) (
      str_append " to " (
        str_append product_name
          (str_append ". Current stock: " (str_append (decimal_ℤ quantity) ".")))))
adjusted product_name (negsuc n) quantity = str_append "Removed " (
    str_append (decimal (suc n)) (
      str_append " from " (
        str_append product_name
          (str_append ". Current stock: " (str_append (decimal_ℤ quantity) ".")))))

unfoldable pub insufficient_stock : String → ℕ → ℤ → String
unfolding decimal decimal_ℤ
insufficient_stock product_name requested current = str_append "Not enough stock to remove " (
    str_append (decimal requested) (
      str_append " from " (
        str_append product_name
          (str_append ". Current stock: " (str_append (decimal_ℤ current) ".")))))

abbrev pub missing_product : String
missing_product = "Which product would you like to adjust?"

unfoldable pub missing_quantity : String → Bool → String
missing_quantity product_query increasing = str_append "How many units of " (
    str_append product_query
      (str_append " would you like to " (str_append (if increasing then "add" else "remove") "?")))

abbrev pub missing_search_product : String
missing_search_product = "What product would you like to search for?"

abbrev pub unsupported : String
unsupported =
    "Sorry, I can only help with product search, stock checks, and inventory adjustments right now."

abbrev pub low_confidence : String
low_confidence = "I'm not sure I understood. Could you rephrase, including the product and amount?"

abbrev pub empty_message : String
empty_message = "Please send a text message describing what you need."

abbrev pub ai_error : String
ai_error = "Sorry, I couldn't process that right now. Please try again."

abbrev pub internal_error : String
internal_error = "Sorry, something went wrong handling that. Please try again."
