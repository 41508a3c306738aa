-- ===== src/Service/Provider.antt =====
-- backend/internal/service/payment.go: the payment gateways. The signature of a webhook, an HMAC, is
-- left out.
use go_react_fihos.Common.{◌==◌, ◌&&◌, Bool, true, false, [], ◌∷◌, ◌++◌, if◌then◌else◌}
use go_react_fihos.Common.Text.{Text, codes, text_eq, to_lower}
use go_react_fihos.Store.Db.{Result, ok, err, sandbox_not_configured}

pub record ProviderResult : Type 0 where
  pub async : Bool
  pub payment_method : Text
  pub payment_url : Text

-- `mockProvider` and `sandboxProvider` with its base URL
pub data Provider : Type 0 where
  mock : Provider
  sandbox : Text → Provider

unfoldable pub new_provider : Text → Text → Provider
new_provider name sandbox_base_url =
    if text_eq (to_lower name) (codes "sandbox") then sandbox sandbox_base_url else mock

abbrev pub is_empty : Text → Bool
is_empty [] = true
is_empty (c ∷ s) = false

-- strings.TrimRight(s, "/")
unfoldable pub trim_slashes : Text → Text
trim_slashes [] = []
trim_slashes (c ∷ s) =
    let rest = trim_slashes s in if c == b'/' && is_empty rest then [] else c ∷ rest

-- Of the request only the reference matters to the two providers.
unfoldable pub create : Provider → Text → Result ProviderResult
create mock ref = ok (record { async = false; payment_method = codes "mock"; payment_url = [] })
create (sandbox base) ref =
    if is_empty base
    then err sandbox_not_configured
    else ok (record {
      async = true;
      payment_method = codes "sandbox";
      payment_url = trim_slashes base ++ (codes "/pay/" ++ ref);
    })
