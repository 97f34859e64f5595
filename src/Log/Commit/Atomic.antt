-- ===== src/Log/Commit/Atomic.antt =====
-- The commit is atomic: at every point of it the drive holds the old state, the committed log, or
-- the new state.
use operating_systeams_proje.Prelude.{
  ℕ, ◌+◌, ◌^◌, ◌<◌, ◌≡◌, ◌⊎◌, inl, inr, refl, sym, ◌∙◌, ap, subst, [], update, slice, arith,
  update_ne, update_self,
}
use operating_systeams_proje.Crc.Table.{IsSound}
use operating_systeams_proje.Crc.Checksum.{checksum-IsWord}
use operating_systeams_proje.Disk.{Block, image}
use operating_systeams_proje.Journal.{nlog, LogHeader, Journal}
use operating_systeams_proje.Log.{barrier, put_head, write_head, encode_head, clear, install_trans}
use operating_systeams_proje.Log.Header.{
  IsEncodable, Encodes, Holds, SameEntries, encode_head-Encodes,
}
use operating_systeams_proje.Log.Images.{
  AllImages-now, AllImages-map, IsHome, Covers, IsLogged, IsCommitted, IsPlaced, IsIdle,
}
use operating_systeams_proje.Log.Install.{Installing, install-Installing}
use operating_systeams_proje.Log.Recover.{Survives, Recovered, installed-Recovered}
use operating_systeams_proje.Log.Commit.Logging.{Logging}

-- What `commit` finds. `old` is what the drive `d` shows outside the log. Every byte in which the
-- buffers differ from it lies in the range of an entry for its block.
pub record IsReady (j : Journal) (old d : ℕ → Block) : Type 0 where
  pub placed : IsPlaced j.start j.lh
  pub block_word : (t : ℕ) → t < j.lh.n → j.lh.block t < 2 ^ 32
  pub offset_word : (t : ℕ) → t < j.lh.n → j.lh.offset t < 2 ^ 32
  pub len_word : (t : ℕ) → t < j.lh.n → j.lh.len t < 2 ^ 32
  pub sound : IsSound j.crc
  pub idle : IsIdle j.start old d
  pub quiet : j.buffers.commands ≡ []
  pub covered :
      (b x : ℕ)
      → IsHome j.start b
      → (old b x ≡ j.buffers.cached b x) ⊎ ((t : ℕ) × Covers j.lh 0 b x t)

module _ (j : Journal) (old d : ℕ → Block) (ready : IsReady j old d) where
  abbrev pub new : ℕ → Block
  new = j.buffers.cached

  -- The header with the checksums that `write_log` has computed.
  abbrev pub with_sums : Journal → LogHeader
  with_sums s = record (j.lh) { cksum = s.lh.cksum }

  module _ (s : Journal) (v : Logging j ready.placed old d j.lh.n s) where
    same_entries : SameEntries (with_sums s) s.lh
    same_entries = record {
      count = v.n_eq;
      block_eq = λ t _. ap (λ (f : ℕ → ℕ). f t) v.block_eq;
      cksum_eq = λ t _. refl;
      offset_eq = λ t _. ap (λ (f : ℕ → ℕ). f t) v.offset_eq;
      len_eq = λ t _. ap (λ (f : ℕ → ℕ). f t) v.len_eq;
    }

    sums-IsEncodable : IsEncodable s.lh
    sums-IsEncodable =
        let p : j.lh.n < nlog = ready.placed.fits in
        record {
          fits = omega (arith, v.n_eq);
          block_word = λ t ht.
              let lt : t < j.lh.n = omega (arith, v.n_eq) in
              omega (arith, same_entries.block_eq t lt, ready.block_word t lt);
          cksum_word = λ t ht.
              let lt : t < j.lh.n = omega (arith, v.n_eq) in
              omega (
                arith,
                v.sum t lt,
                checksum-IsWord
                    (slice (s.buffers.cached (j.start + t + 1)) (j.lh.offset t) (j.lh.len t)),
              );
          offset_word = λ t ht.
              let lt : t < j.lh.n = omega (arith, v.n_eq) in
              omega (arith, same_entries.offset_eq t lt, ready.offset_word t lt);
          len_word = λ t ht.
              let lt : t < j.lh.n = omega (arith, v.n_eq) in
              omega (arith, same_entries.len_eq t lt, ready.len_word t lt);
        }

    header-Encodes : (b : Block) → Encodes (with_sums s) (encode_head s.lh b)
    header-Encodes b =
        let e : Encodes s.lh (encode_head s.lh b) = encode_head-Encodes s.lh sums-IsEncodable b in
        record {
          count = e.count ∙ v.n_eq;
          entries = λ t lt.
              let w : Holds s.lh (encode_head s.lh b) t = e.entries t (omega (arith, v.n_eq)) in
              record {
                block_eq = w.block_eq ∙ same_entries.block_eq t lt;
                cksum_eq = w.cksum_eq;
                offset_eq = w.offset_eq ∙ same_entries.offset_eq t lt;
                len_eq = w.len_eq ∙ same_entries.len_eq t lt;
              };
        }

    abbrev pub headed : Journal
    headed = put_head j.start (barrier s)

    pub head_at : write_head (barrier s) ≡ headed
    unfolding write_head barrier
    head_at = cc v.start_eq

    slot-IsLogged :
        (t : ℕ) → t < j.lh.n → IsLogged (with_sums s) new (s.buffers.cached (j.start + t + 1)) t
    slot-IsLogged t lt = record { sum = v.sum t lt; bytes = v.bytes t lt }

    IsIdle-now : IsIdle j.start old (image d s.buffers.commands)
    IsIdle-now = AllImages-now (IsIdle j.start old) d s.buffers.commands v.images

    pub headed-IsCommitted : IsCommitted j.start (with_sums s) new (image d headed.buffers.commands)
    unfolding put_head barrier image
    headed-IsCommitted = record {
      header =
          subst (Encodes (with_sums s))
            (sym (
              update_self (image d s.buffers.commands) j.start _
              ∙ update_self s.buffers.cached j.start _))
            (header-Encodes (s.buffers.cached j.start));
      logged = λ t lt.
          subst (λ b. IsLogged (with_sums s) new b t)
            (sym (
              update_ne (image d s.buffers.commands) j.start (j.start + t + 1) _ (λ e. omega arith)
              ∙ v.on_disk t lt))
            (slot-IsLogged t lt);
      up_to = λ b x hb.
          let kept : update (image d s.buffers.commands) j.start _ b x ≡ old b x =
            ap (λ (f : Block). f x)
              (update_ne (image d s.buffers.commands) j.start b _ (λ e. omega arith))
            ∙ IsIdle-now.shows b x hb in
          elim (ready.covered b x hb) [ inl e ↦ inl (kept ∙ e) | inr c ↦ inr c ];
    }

    pub sums-IsPlaced : IsPlaced j.start (with_sums s)
    sums-IsPlaced = record { fits = ready.placed.fits; home = ready.placed.home }

    -- Where a crash may leave the drive.
    abbrev pub Atomic : (ℕ → Block) → Type 0
    Atomic f = IsIdle j.start old f ⊎ Survives j.start (with_sums s) new f

    pub headed-Installing :
        Installing j.start (with_sums s) new sums-IsPlaced d Atomic (λ f c. inr (inl c)) 0 headed
    unfolding put_head barrier image
    headed-Installing = record {
      start_eq = v.start_eq;
      same = same_entries;
      sound = v.sound;
      logged = λ t lt.
          subst (λ b. IsLogged (with_sums s) new b t)
            (sym (update_ne s.buffers.cached j.start (j.start + t + 1) _ (λ e. omega arith)))
            (slot-IsLogged t lt);
      up_to = λ b x hb. inl (
          ap (λ (f : Block). f x)
            (update_ne s.buffers.cached j.start b _ (λ e. omega arith) ∙ v.home b hb));
      disk_up_to = headed-IsCommitted.up_to;
      committed = headed-IsCommitted;
      images = (
        inr (inl headed-IsCommitted),
        (
          inl IsIdle-now,
          AllImages-map (IsIdle j.start old) Atomic (λ f i. inl i) d s.buffers.commands v.images,
        ),
      );
    }

    -- Phases 3 and 4.
    pub finished-Recovered :
        Recovered j.start new Atomic d (write_head (clear (install_trans headed)))
    finished-Recovered =
        installed-Recovered j.start j refl ready.sound (with_sums s) new sums-IsPlaced Atomic
          (λ f c. inr (inl c)) (λ f i. inr (inr i)) d (install_trans headed)
          (install-Installing j.start (with_sums s) new sums-IsPlaced d Atomic (λ f c. inr (inl c))
            headed headed-Installing)
