-- ===== src/Engine/Pages.antt =====
-- The loop over the pages of the feed ends when the server's feed does.
use discodrive_apps.Base.{
  ℕ, zero, suc, ◌-◌, ◌<◌, ◌≤◌, ◌≡◌, refl, Bool, true, false, Str, if◌then◌else◌, arith,
}
use discodrive_apps.Base.Exec.{ok, Exec, pure, bind_cong}
use discodrive_apps.World.{World, Page}
use discodrive_apps.Engine.{Machine, on_world, apply_changes, pull_pages, page_limit}

-- A feed whose entries have numbers up to `last`: a page that is not the last one ends behind the
-- number that was asked for.
pub record IsFeed (W : World) (last : ℕ) : Type 0 where
  pub advances :
      (since limit : ℕ) (s : W.State) (page : Page)
      → (W.fetch_changes since limit s).0 ≡ ok page
      → page.has_more ≡ true
      → (since < page.cursor) × (page.cursor ≤ last)

module _ (W : World) (root : Str) (last : ℕ) (feed : IsFeed W last) where
  next_page :
      (b : Bool) (m n : Exec (Machine W) (Unit {0})) (s : Machine W)
      → (b ≡ true → m s ≡ n s)
      → (if b then m else pure tt) s ≡ (if b then n else pure tt) s
  next_page true m n s h = h refl
  next_page false m n s h = refl

  -- If a page that is not the last ends behind the number that was asked for and the numbers end, then
  -- with fuel for as many pages as the feed has numbers left, more fuel changes nothing: the loop has
  -- come to its own end.
  pub pull_pages_ends :
      (fuel more since : ℕ) (s : Machine W)
      → last - since < fuel
      → last - since < more
      → pull_pages W root fuel since s ≡ pull_pages W root more since s
  unfolding pull_pages
  pull_pages_ends zero more since s h k = absurd (omega arith)
  pull_pages_ends (suc fuel) zero since s h k = absurd (omega arith)
  pull_pages_ends (suc fuel) (suc more) since s h k =
      bind_cong (on_world W (W.fetch_changes since page_limit)) _ _ s λ page e.
        bind_cong (apply_changes W root page.changes) _ _ _ λ _ _.
          next_page page.has_more _ _ _ λ b.
            let (up, low) = feed.advances since page_limit s.world page e b in
            pull_pages_ends fuel more page.cursor _ (omega arith) (omega arith)
