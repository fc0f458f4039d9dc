-- ===== src/Manager/Retry.antt =====
-- updateResourceWithRetry and the groups' use of it.
use dynamic_annotation_contr.Base.{ℕ, zero, suc, true, false, ◌&&◌, Option, none, some, ltb}
use dynamic_annotation_contr.Api.{Object}
use dynamic_annotation_contr.Client.{Client, ok, err}

-- What `updateResourceWithRetry` returns beside nil.
pub data UpdateError (E : Type 0) : Type 0 where
  api_error refetch_failed : E → UpdateError E
  out_of_attempts : UpdateError E

abbrev pub max_retries : ℕ
max_retries = 3

module _ {W E : Type 0} (client : Client W E) where
  open client use {update, get, is_conflict}

  -- The loop with the attempts that are left; `attempt < maxRetries-1` says that one more is left.
  unfoldable pub update_attempts : ℕ → Object → Object → W → Option (UpdateError E) × W
  update_attempts zero copy original w = (some out_of_attempts, w)
  update_attempts (suc left) copy original w =
      let (failure, w₁) = update copy w in
      elim failure [
        | none ↦ (none, w₁)
        | some e ↦ elim (is_conflict e && ltb 0 left) [
          | true ↦
              let (fetched, w₂) = get original w₁ in
              elim fetched [
                | ok fresh ↦ update_attempts left fresh original w₂
                | err refetch ↦ (some (refetch_failed refetch), w₂)
              ]
          | false ↦ (some (api_error e), w₁)
        ]
      ]

  unfoldable pub update_resource_with_retry : Object → Object → W → Option (UpdateError E) × W
  update_resource_with_retry = update_attempts max_retries
