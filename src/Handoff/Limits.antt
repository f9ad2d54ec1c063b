-- ===== src/Handoff/Limits.antt =====
-- The arguments that `list_page` of mcp/gxp_core/handoff_store.py takes as limits, and its page.
use look_lowcode.Prelude.{ℕ, ◌+◌, ◌*◌, ◌≤◌, String, ◌&&◌, pos, length, leb, ◌≡◌, sym, arith}
use look_lowcode.Json.{Value, int}
use look_lowcode.Outcome.{done, require, bind-eq_done, then-eq_done, require-eq_done, done_inj}
use look_lowcode.Handoff.Host.{Host, limit}
use look_lowcode.Handoff.Finite.{canonical_sha256}
use look_lowcode.Handoff.Store.{Files}
use look_lowcode.Handoff.Page.{Page, Lookup, between, wanted_text, scope_text, cursor_id, list_page}
use look_lowcode.Handoff.Budget.{bytes_of, page_from-Fits}
use look_lowcode.Handoff.Listing.{key}

between-eq_done : (low high n m : ℕ) → between low high (int (pos n)) ≡ done m → (low ≤ m) × (m ≡ n)
between-eq_done low high n m h =
    let (inside, k) = then-eq_done (require (leb low n && leb n high) limit) (done n) h in
    let same = sym (done_inj n m k) in
    (ground (arith, require-eq_done (leb low n && leb n high) limit inside, same), same)

abbrev lookup_for : String → String → ℕ → ℕ → Lookup
lookup_for wanted scope most max_bytes = record {
  wanted = wanted;
  scope = scope;
  most = most;
  max_bytes = max_bytes;
}

-- A page of `list_page` has at most `limit` candidates, and as a JSON list they take at most `max_bytes`.
pub list_page-Fits :
    (host : Host) (files : Files) (identifier environment cursor : Value) (n m : ℕ) (page : Page)
    → list_page host files identifier environment cursor (int (pos n)) (int (pos m)) ≡ done page
    → (length page.candidates ≤ n) × (2 + bytes_of host page.candidates ≤ m)
unfolding list_page
list_page-Fits host files identifier environment cursor n m page h =
    let (wanted, _, h1) = bind-eq_done (wanted_text host.runtime identifier) _ h in
    let (scope, _, h2) = bind-eq_done (scope_text environment) _ h1 in
    let (most, b, h3) = bind-eq_done (between 1 50 (int (pos n))) _ h2 in
    let (size, c, h4) = bind-eq_done (between 1024 (48 * 1024) (int (pos m))) _ h3 in
    let (digest, _, h5) = bind-eq_done (canonical_sha256 host (key wanted scope)) _ h4 in
    let (after, _, h6) = bind-eq_done (cursor_id digest cursor) _ h5 in
    let (some_wanted, same_most) = between-eq_done 1 50 n most b in
    let (room, same_size) = between-eq_done 1024 (48 * 1024) m size c in
    let (few, within) =
      page_from-Fits host files (lookup_for wanted scope most size) digest after page some_wanted
        (omega (arith, room)) h6 in
    (omega (arith, few, same_most), omega (arith, within, same_size))
