-- ===== src/Os/Beside.antt =====
-- A file that is being written while another one is read, where no call meets a fault.
use cloudstorage.Base.{
  ℕ, ◌<◌, ◌≡◌, ap, ◌≢◌, true, Option, none, [], ◌++◌, arith, Str, Err, Outcome, ok,
}
use cloudstorage.Os.{
  Os, past_fault, exists, stat, reading, open_file, opened, hand_out, write, put_bytes, close,
  drain,
}
use cloudstorage.Os.Fresh.{Fresh, Fresh-write}
use cloudstorage.Os.Kept.{Kept, Kept-SameFiles, Kept-write, Kept-close}

-- The handle h writes the file at a path. The file at p is another one.
pub record Apart (path p : Str) (h j : ℕ) (whole text : Str) (os : Os) : Type 0 where
  pub fresh : Fresh path h text os
  pub kept : Kept p j whole os
  pub other : (os.handles h).inode ≢ j

past_fault-calm : (os : Os) → os.faults ≡ [] → past_fault os ≡ os
past_fault-calm os calm = ground (arith, calm)

module _ (p : Str) (j : ℕ) (whole : Str) (os : Os) (calm : os.faults ≡ [])
    (k : Kept p j whole os) where
  pub exists-Kept : exists p os ≡ (ok true, os)
  unfolding exists stat
  exists-Kept = ground (arith, calm, k.there)

  -- The handle that is opened for reading stands at the start of the file.
  pub open_file-Kept :
      (open_file p reading os ≡ (ok os.next_handle, (open_file p reading os).1))
      × (((open_file p reading os).1.handles os.next_handle).is_open ≡ true)
      × (((open_file p reading os).1.handles os.next_handle).offset ≡ 0)
      × (((open_file p reading os).1.handles os.next_handle).inode ≡ j)
  unfolding open_file opened hand_out
  open_file-Kept = (
    ap (λ r. (r, (open_file p reading os).1)) (ground (arith, calm, k.there)),
    ground (arith, calm, k.there),
    ground (arith, calm, k.there),
    ground (arith, calm, k.there),
  )

module _ {path p : Str} {h j : ℕ} {whole : Str} where
  pub Apart-open_file :
      (text : Str) (os : Os)
      → h < os.next_handle
      → Apart path p h j whole text os
      → Apart path p h j whole text (open_file p reading os).1
  unfolding open_file opened hand_out
  Apart-open_file text os lt a =
      let calm : os.faults ≡ [] = a.fresh.calm in
      let there = a.kept.there in
      record {
        fresh = record {
          calm = ground (arith, calm, there);
          holds = (
            ground (arith, calm, there, a.fresh.holds.0),
            ground (arith, calm, there, a.fresh.holds.1),
          );
          at_end = ground (arith, calm, there, a.fresh.at_end);
          is_open = ground (arith, calm, there, a.fresh.is_open);
          writes = ground (arith, calm, there, a.fresh.writes);
          appends = ground (arith, calm, there, a.fresh.appends);
        };
        kept =
            Kept-SameFiles os (open_file p reading os).1
              (
                λ q k. ground (arith, calm, there),
                λ q k. ground (arith, calm, there),
                ground (arith, calm, there),
                ground (arith, calm, there),
              )
              a.kept;
        other = ground (arith, calm, there, a.other);
      }

  pub Apart-write :
      (text bytes : Str) (os : Os)
      → Apart path p h j whole text os
      → Apart path p h j whole (text ++ bytes) (write h bytes os).1
  Apart-write text bytes os a = record {
    fresh = (Fresh-write path h text bytes os a.fresh).1;
    kept = Kept-write h bytes os a.other a.kept;
    other = unfold write in (unfold put_bytes in ground (arith, a.other));
  }

  module _ (hr : ℕ) (ne : hr ≢ h) (text : Str) (os : Os) (a : Apart path p h j whole text os) where
    pub Apart-drain : Apart path p h j whole text (drain hr os).1
    unfolding drain
    Apart-drain = record {
      fresh = record {
        calm = ground (arith, a.fresh.calm);
        holds = (ground (arith, a.fresh.holds.0), ground (arith, a.fresh.holds.1));
        at_end = ground (arith, a.fresh.at_end);
        is_open = ground (arith, a.fresh.is_open);
        writes = ground (arith, a.fresh.writes);
        appends = ground (arith, a.fresh.appends);
      };
      kept =
          Kept-SameFiles os (drain hr os).1
            (λ q k. ground arith, λ q k. ground arith, ground arith, ground arith) a.kept;
      other = ground (arith, a.other);
    }

    pub Apart-close : Apart path p h j whole text (close hr os).1
    unfolding close
    Apart-close = record {
      fresh = record {
        calm = ground (arith, a.fresh.calm);
        holds = (ground (arith, a.fresh.holds.0), ground (arith, a.fresh.holds.1));
        at_end = ground (arith, a.fresh.at_end);
        is_open = ground (arith, a.fresh.is_open);
        writes = ground (arith, a.fresh.writes);
        appends = ground (arith, a.fresh.appends);
      };
      kept = Kept-close hr os a.kept;
      other = ground (arith, a.other);
    }

-- A handle that is open, at the start of a file, gives the whole file.
pub drain-reads :
    (hr j : ℕ) (whole : Str) (os : Os)
    → os.faults ≡ []
    → (os.handles hr).is_open ≡ true
    → (os.handles hr).offset ≡ 0
    → (os.handles hr).inode ≡ j
    → os.inodes j ≡ whole
    → (drain hr os ≡ (ok (whole, none), (drain hr os).1))
      × (((drain hr os).1.handles hr).is_open ≡ true)
unfolding drain
drain-reads hr j whole os calm opened start on same = (
  ap (λ (r : Outcome (Str × Option Err)). (r, (drain hr os).1))
      (ground (arith, calm, opened, start, on, same)),
  ground (arith, calm, opened),
)

pub write-is_open :
    (hr h : ℕ) (bytes : Str) (os : Os)
    → (os.handles hr).is_open ≡ true
    → ((write h bytes os).1.handles hr).is_open ≡ true
unfolding write put_bytes
write-is_open hr h bytes os e = ground (arith, e)

pub close-open :
    (h : ℕ) (os : Os)
    → os.faults ≡ []
    → (os.handles h).is_open ≡ true
    → close h os ≡ (ok tt, (close h os).1)
unfolding close
close-open h os calm e =
    ap (λ (r : Outcome (Unit {0})). (r, (close h os).1)) (ground (arith, calm, e))
