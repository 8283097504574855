-- ===== src/Console/Ring.antt =====
-- The bytes between two indices of the console's ring, and the invariant of its indices.
use eggos.Base.{
  ℕ, zero, suc, ◌+◌, ◌-◌, ◌%◌, ◌≤◌, ◌<◌, ◌≡◌, refl, sym, ap, ap₂, ◌∙◌, List, [], ◌∷◌, ◌++◌, length,
  get_or, set, get_or-set_self, get_or-set_ne, length-set, arith,
}
use eggos.Base.Words.{word, sub32}
use eggos.Console.{con_buflen, Line, commit, append_byte}
use eggos.Console.Spec
use eggos.Console.Spec.{Discipline, drop_last}

-- The `n` bytes from index `i` on, going round the ring.
abbrev pub window : List ℕ → ℕ → ℕ → List ℕ
window buf i zero = []
window buf i (suc n) = get_or buf (i % con_buflen) 0 ∷ window buf (i + 1) n

pub length-window : (buf : List ℕ) (i n : ℕ) → length (window buf i n) ≡ n
length-window buf i zero = refl
length-window buf i (suc n) = ap suc (length-window buf (i + 1) n)

window-add :
    (buf : List ℕ) (i m n k : ℕ)
    → i + m ≡ k
    → window buf i (m + n) ≡ window buf i m ++ window buf k n
window-add buf i zero n k h = ap₂ (window buf) (omega arith) (omega arith)
window-add buf i (suc m) n k h =
    ap (window buf i) count
    ∙ ap (λ t. get_or buf (i % con_buflen) 0 ∷ t) (window-add buf (i + 1) m n k (omega arith))
  where
    count : suc m + n ≡ suc (m + n)
    count = omega arith

-- Writing at the index `e` spares the bytes from `i` up to it.
window-set_past :
    (buf : List ℕ) (i n e v : ℕ)
    → i + n ≤ e
    → e < i + con_buflen
    → window (set buf (e % con_buflen) v) i n ≡ window buf i n
window-set_past buf i zero e v h k = refl
window-set_past buf i (suc n) e v h k =
    ap₂ ◌∷◌ (get_or-set_ne buf (e % con_buflen) (i % con_buflen) v 0 (omega arith))
      (window-set_past buf (i + 1) n e v (omega arith) (omega arith))

drop_last-window : (buf : List ℕ) (i n : ℕ) → drop_last (window buf i (suc n)) ≡ window buf i n
drop_last-window buf i zero = refl
drop_last-window buf i (suc n) =
    ap (λ t. get_or buf (i % con_buflen) 0 ∷ t) (drop_last-window buf (i + 1) n)

-- The indices in order, at most a buffer apart, and not yet wrapped.
pub record IsValid (c : Line) : Type 0 where
  pub length_buf : length c.buf ≡ con_buflen
  pub read_le : c.r ≤ c.w
  pub write_le : c.w ≤ c.e
  pub room : c.e ≤ c.r + con_buflen
  pub no_wrap : c.e < word

-- What the ring stands for: the committed bytes, and those of the line under edit.
abbrev pub contents : Line → Discipline
contents c = record { ready = window c.buf c.r (c.w - c.r); pending = window c.buf c.w (c.e - c.w) }

module _ (c : Line) (v : IsValid c) where
  -- All the bytes that are held are the readable ones and then the others.
  pub window_held :
      window c.buf c.r (c.e - c.r) ≡ window c.buf c.r (c.w - c.r) ++ window c.buf c.w (c.e - c.w)
  window_held =
      ap (window c.buf c.r) held
      ∙ window-add c.buf c.r (c.w - c.r) (c.e - c.w) c.w (omega (arith, v.read_le))
    where
      held : c.e - c.r ≡ c.w - c.r + (c.e - c.w)
      held = omega (arith, v.read_le, v.write_le)

  module _ (ch : ℕ) (free : c.e < c.r + con_buflen) where
    pub ready-append_byte :
        window (append_byte c ch).buf c.r (c.w - c.r) ≡ window c.buf c.r (c.w - c.r)
    ready-append_byte =
        window-set_past c.buf c.r (c.w - c.r) c.e ch (omega (arith, v.read_le, v.write_le)) free

    pub pending-append_byte :
        window (append_byte c ch).buf c.w (c.e + 1 - c.w)
        ≡ window c.buf c.w (c.e - c.w) ++ (ch ∷ [])
    pending-append_byte =
        ap (window (append_byte c ch).buf c.w) longer
        ∙ (window-add (append_byte c ch).buf c.w (c.e - c.w) 1 c.e (omega (arith, v.write_le))
            ∙ ap₂ ◌++◌
                (window-set_past c.buf c.w (c.e - c.w) c.e ch (omega (arith, v.write_le))
                  (omega (arith, v.read_le)))
                (ap (λ x. x ∷ [])
                  (get_or-set_self c.buf (c.e % con_buflen) ch 0 (omega (arith, v.length_buf)))))
      where
        longer : c.e + 1 - c.w ≡ c.e - c.w + 1
        longer = omega (arith, v.write_le)

    pub append_byte-IsValid : c.e + 1 < word → IsValid (append_byte c ch)
    append_byte-IsValid h = record {
      length_buf = omega (arith, v.length_buf, length-set c.buf (c.e % con_buflen) ch);
      read_le = v.read_le;
      write_le = omega (arith, v.write_le);
      room = omega arith;
      no_wrap = omega arith;
    }

    -- A typed byte joins the line under edit.
    pub contents-append_byte :
        c.e + 1 < word
        → contents (append_byte c ch) ≡ record {
          ready = window c.buf c.r (c.w - c.r);
          pending = window c.buf c.w (c.e - c.w) ++ (ch ∷ []);
        }
    contents-append_byte h =
        ap₂ (λ x y. record { ready = x; pending = y }) ready-append_byte
          (ap (λ k. window (append_byte c ch).buf c.w (k - c.w)) next ∙ pending-append_byte)
      where
        next : (append_byte c ch).e ≡ c.e + 1
        next = omega arith

  pub commit-IsValid : IsValid (commit c)
  commit-IsValid = record {
    length_buf = v.length_buf;
    read_le = omega (arith, v.read_le, v.write_le);
    write_le = omega arith;
    room = v.room;
    no_wrap = v.no_wrap;
  }

  -- A commit makes everything readable.
  pub contents-commit : contents (commit c) ≡ Spec.flush (contents c)
  contents-commit =
      ap₂ (λ x y. record { ready = x; pending = y }) window_held (ap (window c.buf c.e) none_left)
    where
      none_left : c.e - c.e ≡ 0
      none_left = omega arith

  pub size-contents : Spec.size (contents c) ≡ c.e - c.r
  size-contents = omega (
    arith,
    length-window c.buf c.r (c.w - c.r),
    length-window c.buf c.w (c.e - c.w),
    v.read_le,
    v.write_le,
  )

  -- Stepping back drops the byte typed last.
  pub contents_back :
      c.w < c.e
      → contents (record c { e = sub32 c.e 1 }) ≡ record {
        ready = window c.buf c.r (c.w - c.r);
        pending = drop_last (window c.buf c.w (c.e - c.w));
      }
  contents_back h =
      ap (λ y. record { ready = window c.buf c.r (c.w - c.r); pending = y })
        (ap (window c.buf c.w) shorter
          ∙ (sym (drop_last-window c.buf c.w (c.e - c.w - 1))
              ∙ ap (λ k. drop_last (window c.buf c.w k)) longer))
    where
      shorter : sub32 c.e 1 - c.w ≡ c.e - c.w - 1
      shorter = omega (arith, v.no_wrap)

      longer : suc (c.e - c.w - 1) ≡ c.e - c.w
      longer = omega arith

  pub back-IsValid : c.w < c.e → IsValid (record c { e = sub32 c.e 1 })
  back-IsValid h = record {
    length_buf = v.length_buf;
    read_le = v.read_le;
    write_le = omega (arith, v.no_wrap);
    room = omega (arith, v.no_wrap, v.room);
    no_wrap = omega arith;
  }
