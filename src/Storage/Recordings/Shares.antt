-- ===== src/Storage/Recordings/Shares.antt =====
-- How often a share link of a recording can be used.
use telepair.Base.{
  ℕ, suc, ◌-◌, ◌≤◌, ◌<◌, ◌&&◌, true, ◌≡◌, refl, ◌∙◌, ap, Option, none, some, List, [], ◌∷◌,
  if◌then◌else◌, arith, length, All, is_some,
}
use Prim.Native.Nat.{min}
use native.Mathlib.Decide.{dec_lt}
use telepair.Base.Rows.{find, update_where}
use telepair.Base.Unique.{Unique, find-Unique, find-update_where_self, Unique-update_where}
use telepair.Core.Records.{RecordingShareRow}
use telepair.Storage.Db.{Database, Host, unexpired}
use telepair.Storage.Recordings.{share_is, share_usable, use_share, consume_recording_share}

abbrev pub share_key : RecordingShareRow → ℕ
share_key s = s.token_sha256

abbrev pub UniqueShares : Database → Type 0
UniqueShares db = Unique share_key db.recording_shares

abbrev pub share_of : ℕ → Database → Option RecordingShareRow
share_of sha db = find (share_is sha) db.recording_shares

module _ (sha recording_id : ℕ) where
  consume_verdict :
      (host : Host) (db : Database) (s : RecordingShareRow)
      → UniqueShares db
      → share_of sha db ≡ some s
      → consume_recording_share host sha recording_id db ≡ (
          if share_usable host.now recording_id s
          then (
            some (use_share s),
            record db {
              recording_shares =
                  update_where
                    (λ r. share_is sha r && share_usable host.now recording_id r)
                    use_share
                    db.recording_shares;
            },
          )
          else (none, db))
  unfolding consume_recording_share
  consume_verdict host db s u found = ground (
    arith,
    find-Unique share_key sha (share_usable host.now recording_id) db.recording_shares s u found,
  )

  -- The link is used at each of the times; the result is the number of visits let in.
  unfoldable pub visits : List Host → Database → ℕ × Database
  visits [] db = (0, db)
  visits (h ∷ hs) db =
      let (shown, db') = consume_recording_share h sha recording_id db in
      let (n, db'') = visits hs db' in (if is_some shown then suc n else n, db'')

  visits-cons :
      (h : Host) (hs : List Host) (db : Database) {o : Option RecordingShareRow} {db' : Database}
      → consume_recording_share h sha recording_id db ≡ (o, db')
      → (visits (h ∷ hs) db).0 ≡ (if is_some o then suc (visits hs db').0 else (visits hs db').0)
  unfolding visits
  visits-cons h hs db e =
      ap (λ r. if is_some r.0 then suc (visits hs r.1).0 else (visits hs r.1).0) e

  -- On a database with unique share digests, a link for at most `max_uses` visits (not zero), with
  -- `used_count` of them gone, lets in exactly as many of the visits before it expires as are
  -- left, in whatever number they come.
  pub visits_bounded :
      (hosts : List Host) (db : Database) (s : RecordingShareRow)
      → UniqueShares db
      → share_of sha db ≡ some s
      → s.recording_id ≡ recording_id
      → 0 < s.max_uses
      → s.used_count ≤ s.max_uses
      → All (λ (h : Host). unexpired h.now s.expires_at ≡ true) hosts
      → (visits hosts db).0 ≡ min (length hosts) (s.max_uses - s.used_count)
  unfolding visits
  visits_bounded [] db s u found same limited within live = omega arith
  visits_bounded (h ∷ hs) db s u found same limited within live =
      elim (dec_lt s.used_count s.max_uses) [
        | yes left ↦
            let usable : share_usable h.now recording_id s ≡ true = ground (arith, live.0) in
            let rows =
              update_where (λ r. share_is sha r && share_usable h.now recording_id r) use_share
                db.recording_shares in
            let e : consume_recording_share h sha recording_id db
                ≡ (some (use_share s), record db { recording_shares = rows }) =
              consume_verdict h db s u found ∙ rw usable in
            let ih =
              visits_bounded hs (record db { recording_shares = rows }) (use_share s)
                (Unique-update_where share_key _ use_share db.recording_shares (λ r. refl) u)
                (find-update_where_self share_key sha (share_usable h.now recording_id) use_share
                  db.recording_shares s (λ x. refl) found usable)
                same limited (omega arith) live.1 in
            omega (arith, visits-cons h hs db e, ih)
        | no spent ↦
            let e : consume_recording_share h sha recording_id db ≡ (none, db) =
              ground (arith, consume_verdict h db s u found) in
            let ih = visits_bounded hs db s u found same limited within live.1 in
            omega (arith, visits-cons h hs db e, ih)
      ]
