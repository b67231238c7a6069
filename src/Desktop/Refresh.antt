-- ===== src/Desktop/Refresh.antt =====
-- The refresh comes to an end whatever the server answers.
use discodrive_apps.Base.{
  ℕ, zero, suc, ◌-◌, ◌<◌, ◌≤◌, ◌≡◌, refl, Bool, true, false, Str, ltb, ltb→lt, if◌then◌else◌, arith,
}
use discodrive_apps.Base.Exec.{ok, Exec, bind_cong}
use discodrive_apps.Index
use discodrive_apps.World.{World, Page}
use discodrive_apps.Engine.{Machine, on_world, on_index, page_limit}
use discodrive_apps.Desktop.{take_changes, refresh_from}

module _ (W : World) (root : Str) (last : ℕ)
    (bounded : (since limit : ℕ) (s : W.State) (page : Page)
      → (W.fetch_changes since limit s).0 ≡ ok page
      → since < page.cursor
      → page.cursor ≤ last) where
  if_same :
      (b : Bool) (m n k : Exec (Machine W) (Unit {0})) (s : Machine W)
      → (b ≡ true → m s ≡ n s)
      → (if b then m else k) s ≡ (if b then n else k) s
  if_same true m n k s h = h refl
  if_same false m n k s h = refl

  -- If no cursor to which the server moves up is above a bound (such as the largest int64), then with fuel
  -- for as many pages as there are numbers up to the bound, more fuel changes nothing: the loop comes to its own
  -- end also for a server that always says there is more and does not move the cursor.
  pub refresh_from_ends :
      (fuel more since : ℕ) (s : Machine W)
      → last - since < fuel
      → last - since < more
      → refresh_from W root fuel since s ≡ refresh_from W root more since s
  unfolding refresh_from
  refresh_from_ends zero more since s h k = absurd (omega arith)
  refresh_from_ends (suc fuel) zero since s h k = absurd (omega arith)
  refresh_from_ends (suc fuel) (suc more) since s h k =
      bind_cong (on_world W (W.fetch_changes since page_limit)) _ _ s λ page e.
        bind_cong (take_changes W root page.changes) _ _ _ λ _ _.
          if_same (ltb since page.cursor) _ _ _ _ λ up.
            bind_cong (on_index W (Index.set_cursor page.cursor)) _ _ _ λ _ _.
              if_same page.has_more _ _ _ _ λ _.
                let high = ltb→lt since page.cursor up in
                let low = bounded since page_limit s.world page e high in
                refresh_from_ends fuel more page.cursor _ (omega arith) (omega arith)
