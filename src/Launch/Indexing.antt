-- ===== src/Launch/Indexing.antt =====
-- The index may be late: how long the launch waits for it.
use zonk_fun.Base.{ℕ, zero, suc, ◌<◌, ◌≡◌, refl, arith, true, text_eq, codes, Text, ok}
use zonk_fun.Client.{Address, Hash, Client, Context, pause, ◌>>=◌}
use zonk_fun.Curve.Resolve.{Config}
use zonk_fun.Launch.{
  Page, ApiClientError, answered, api_error, ask, after_finalize, finalize_within,
}

module _ {W : Type 0} (client : Client W) (config : Config) (page : Page W) (draft : Text)
    (token : Address) (hash : Hash) where
  -- The request says so many times that the token is not indexed, two seconds apart, and then
  -- succeeds.
  unfoldable pub IsIndexedAfter : ℕ → Context W → Type 0
  IsIndexedAfter zero c =
      (ask client config page (page.finalize draft token hash) c).0 ≡ answered tt
  IsIndexedAfter (suc k) c =
      (e : ApiClientError) × ((ask client config page (page.finalize draft token hash) c).0
        ≡ api_error e)
      × (text_eq e.code (codes "not_indexed") ≡ true)
      × IsIndexedAfter k
          (pause client 2000 (ask client config page (page.finalize draft token hash) c).1).1

  -- The loop finds the token where the index knows it within the attempts that it makes.
  pub late_index_found :
      (attempts k : ℕ) (c : Context W)
      → k < attempts
      → IsIndexedAfter k c
      → (finalize_within client config page attempts draft token hash c).0 ≡ ok true
  unfolding IsIndexedAfter finalize_within after_finalize ◌>>=◌ pause
  late_index_found zero k c less after = absurd (omega arith)
  late_index_found (suc attempts) zero c less after = rw after refl
  late_index_found (suc attempts) (suc k) c less (e, refused, early, after) =
      rw (refused, early) (late_index_found attempts k _ (omega arith) after)
