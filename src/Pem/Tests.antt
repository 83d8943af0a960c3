-- ===== src/Pem/Tests.antt =====
-- The PEM text of a small key.
use signet_clients.Prelude.{ℕ, ◌≡◌, refl, some, List, [], ◌∷◌, arith}
use signet_clients.Runtime.{codes}
use signet_clients.Pem.{base64_digit, to_base64, pem_lines, der_to_pem}
use signet_clients.Pem.Reading.{read_pem, read_pem-der_to_pem}
use signet_clients.Pem.Base64.{from_base64, from_base64-to_base64}
use signet_clients.Pem.Wrapping.{concat, IsWrapped, pem_lines-wrap}

abbrev key : List ℕ
key = 0 ∷ 16 ∷ 131 ∷ 255 ∷ []

key_digits : to_base64 key ≡ codes "ABCD/w=="
unfolding to_base64 base64_digit
key_digits = refl

from_base64-to_base64_run : from_base64 (to_base64 key) ≡ key
from_base64-to_base64_run =
    from_base64-to_base64 key (omega arith, (omega arith, (omega arith, (omega arith, tt))))

read_pem-der_to_pem_example :
    read_pem (codes "PRIVATE KEY") (der_to_pem key (codes "PRIVATE KEY")) ≡ some key
read_pem-der_to_pem_example =
    read_pem-der_to_pem key (codes "PRIVATE KEY")
      (omega arith, (omega arith, (omega arith, (omega arith, tt))))

pem_lines-wrap_run :
    (concat (pem_lines (to_base64 key)) ≡ to_base64 key) × IsWrapped (pem_lines (to_base64 key))
pem_lines-wrap_run = pem_lines-wrap (to_base64 key)
