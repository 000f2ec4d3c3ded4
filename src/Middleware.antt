-- ===== src/Middleware.antt =====
-- middleware/interceptor.go: chains of interceptors. An interceptor is the function that wraps the
-- next handler, or the stream.
use zara_rpc.Common.{◌≡◌, refl, ap, List, [], ◌∷◌, ◌++◌}

-- `ChainUnaryInterceptors` and `ChainStreamInterceptors`: the loop runs from the last index down,
-- so the last interceptor wraps first.
unfoldable pub chain_interceptors {ℓ} : {F : Type ℓ} → List (F → F) → F → F
chain_interceptors [] next = next
chain_interceptors (i ∷ is) next = i (chain_interceptors is next)

-- A chain in two parts is the chain of the first around the chain of the second.
pub chain_interceptors-append {ℓ} :
    {F : Type ℓ} (is js : List (F → F)) (next : F)
    → chain_interceptors (is ++ js) next ≡ chain_interceptors is (chain_interceptors js next)
unfolding chain_interceptors
chain_interceptors-append [] js next = refl
chain_interceptors-append (i ∷ is) js next = ap i (chain_interceptors-append is js next)
