-- ===== src/Cleanup/Batches.antt =====
-- The loop over the batches, and one loop over all resources.
use dynamic_annotation_contr.Base.{
  ℕ, zero, suc, ◌+◌, ◌≤◌, ◌≡◌, refl, ◌∙◌, ap, sym, List, [], ◌∷◌, ◌++◌, arith, length, Bytes,
}
use dynamic_annotation_contr.Api.{Object}
use dynamic_annotation_contr.Client.{Client}
use dynamic_annotation_contr.Cleanup.{
  batch_size, take_batch, cleanup_resource_annotations, cleanup_resource_batch, cleanup_batches,
}

take_batch-append :
    (n : ℕ) (resources : List Object)
    → (take_batch n resources).0 ++ (take_batch n resources).1 ≡ resources
unfolding take_batch
take_batch-append zero resources = refl
take_batch-append (suc n) [] = refl
take_batch-append (suc n) (r ∷ rest) = grind (arith, take_batch-append n rest)

take_batch-shorter :
    (n : ℕ) (r : Object) (rest : List Object)
    → length (take_batch (suc n) (r ∷ rest)).1 ≤ length rest
unfolding take_batch
take_batch-shorter zero r rest = omega arith
take_batch-shorter (suc n) r [] = omega arith
take_batch-shorter (suc n) r (r' ∷ rest) = grind (arith, take_batch-shorter n r' rest)

module _ {W E : Type 0} (client : Client W E) (valid : List Bytes) where
  batch-append :
      (xs ys : List Object) (count : ℕ) (w : W)
      → cleanup_resource_batch client (xs ++ ys) valid count w ≡ (
          let (cleaned, w') = cleanup_resource_batch client xs valid count w in
          cleanup_resource_batch client ys valid cleaned w')
  unfolding cleanup_resource_batch
  batch-append [] ys count w = refl
  batch-append (x ∷ xs) ys count w = batch-append xs ys _ _

  -- the count so far is added to
  batch-count :
      (xs : List Object) (count : ℕ) (w : W)
      → cleanup_resource_batch client xs valid count w
        ≡ (let (cleaned, w') = cleanup_resource_batch client xs valid 0 w in (count + cleaned, w'))
  unfolding cleanup_resource_batch
  batch-count [] count w = ground arith
  batch-count (x ∷ xs) count w = ground (
    arith,
    batch-count xs count (cleanup_resource_annotations client x valid w).1,
    batch-count xs (count + 1) (cleanup_resource_annotations client x valid w).1,
    batch-count xs 1 (cleanup_resource_annotations client x valid w).1,
  )

  -- The loop over the batches ends: with as many turns as there are resources, and with any number
  -- more, it does to the cluster, and counts, what one loop over all of the resources does.
  pub cleanup_batches-cleanup_resource_batch :
      (fuel : ℕ) (resources : List Object) (count : ℕ) (w : W)
      → length resources ≤ fuel
      → cleanup_batches client fuel resources valid count w
        ≡ cleanup_resource_batch client resources valid count w
  unfolding cleanup_batches cleanup_resource_batch
  cleanup_batches-cleanup_resource_batch zero [] count w h = ground arith
  cleanup_batches-cleanup_resource_batch zero (r ∷ rest) count w h = absurd (ground arith)
  cleanup_batches-cleanup_resource_batch (suc fuel) [] count w h = ground arith
  cleanup_batches-cleanup_resource_batch (suc fuel) (r ∷ rest) count w h =
      cleanup_batches-cleanup_resource_batch fuel left
        (count + (cleanup_resource_batch client batch valid 0 w).0)
        (cleanup_resource_batch client batch valid 0 w).1
        (omega (arith, take_batch-shorter 99 r rest, h))
      ∙ ap (λ p. cleanup_resource_batch client left valid p.0 p.1) (sym (batch-count batch count w))
      ∙ sym (batch-append batch left count w)
      ∙ ap (λ l. cleanup_resource_batch client l valid count w)
          (take_batch-append batch_size (r ∷ rest))
    where
      batch : List Object
      batch = (take_batch batch_size (r ∷ rest)).0

      left : List Object
      left = (take_batch batch_size (r ∷ rest)).1
