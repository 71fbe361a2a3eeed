-- ===== src/Session/Series.antt =====
-- A whole file as windows of capsules, as they are sent and as they come in.
use udm.Base.{
  ℕ, zero, suc, ◌+◌, ◌-◌, ◌*◌, ◌≤◌, ◌<◌, ◌^◌, ◌≡◌, refl, ap, sym, ◌∙◌, true, false, List, [], ◌∷◌,
  ◌++◌, arith, length, drop, append-nil, drop-all,
}
use udm.Wire.{header_space}
use udm.World.{DataSource, Arrival, SockAddr}
use udm.Factory.Load.{IsReading, after_chunk, length-next_bytes}
use udm.Presentation.Written.{window_bytes}
use udm.Session.Processor.{Params, win_siz}
use udm.Session.Windows.{
  after_chunks, after_chunks-IsReading, after_chunks-pos, after_chunks-content,
  after_chunks-file_size, is_short-full, after_chunk-IsReading, length-next_bytes-full,
}
use udm.Session.Closed.{after_chunks-rest, is_short-rest}
use udm.Session.Received.{Sent, arrivals_of, payloads_of, IsSeries}
use udm.Session.Capsules.{
  capsules, IsPayloadParams, capsules-IsSeries, length-capsules, capsules-rest,
}

-- Full windows, and one that ends with FIN.
abbrev pub IsFileSeries : ℕ → List (List Sent) → Type 0
IsFileSeries n [] = ⊥
IsFileSeries n (cs ∷ []) = IsSeries n true 0 cs × (length cs ≤ win_siz)
IsFileSeries n (cs ∷ ds ∷ windows) =
    IsSeries n false 0 cs × ((length cs ≡ win_siz) × IsFileSeries n (ds ∷ windows))

abbrev pub all_arrivals : List (List Sent) → List Arrival → List Arrival
all_arrivals [] rest = rest
all_arrivals (cs ∷ windows) rest = arrivals_of cs (all_arrivals windows rest)

-- The payloads of all windows, one after the other.
abbrev pub all_bytes : List (List Sent) → List ℕ
all_bytes [] = []
all_bytes (cs ∷ windows) = window_bytes (payloads_of cs) ++ all_bytes windows

-- The windows of a file: `j` full ones, and one of `k` full chunks and the last.
abbrev pub file_capsules : ℕ → ℕ → Params → ℕ → DataSource → ℕ → SockAddr → List (List Sent)
file_capsules zero k p i s n from = capsules (suc k) p i s n from ∷ []
file_capsules (suc j) k p i s n from =
    capsules win_siz p i s n from
    ∷ file_capsules j k p (i + win_siz) (after_chunks win_siz s n) n from

pub length-file_capsules :
    (j k : ℕ) (p : Params) (i : ℕ) (s : DataSource) (n : ℕ) (from : SockAddr)
    → length (file_capsules j k p i s n from) ≡ suc j
length-file_capsules zero k p i s n from = refl
length-file_capsules (suc j) k p i s n from = ap suc (length-file_capsules j k p _ _ n from)

-- A first window goes before any windows.
IsFileSeries-cons :
    (m : ℕ) (cs : List Sent) (windows : List (List Sent))
    → IsSeries m false 0 cs
    → length cs ≡ win_siz
    → IsFileSeries m windows
    → IsFileSeries m (cs ∷ windows)
IsFileSeries-cons m cs [] v l rest = absurd rest
IsFileSeries-cons m cs (ds ∷ windows) v l rest = (v, (l, rest))

-- The last chunk ends the file.
after_chunks-end :
    (k e : ℕ) (s : DataSource) (n : ℕ)
    → IsReading s n
    → s.file_size ≡ s.pos + (k * (n - header_space) + e)
    → e < n - header_space
    → length s.content ≤ (after_chunks (suc k) s n).pos
after_chunks-end zero e s n r size less =
    let l = length-next_bytes s n in let a = r.whole in omega arith
after_chunks-end (suc k) e s n r size less =
    let l = length-next_bytes-full s n r (omega arith) in
    after_chunks-end k e (after_chunk s n) n (after_chunk-IsReading s n r) (omega arith) less

module _ (p : Params) (v : IsPayloadParams p) (n m : ℕ) (from : SockAddr) (wide : n ≤ m) (k e : ℕ)
    (some_left : 0 < e) (less : e < n - header_space) (narrow : k < win_siz) where
  -- The last window.
  pub last-IsSeries :
      (i : ℕ) (s : DataSource)
      → IsReading s n
      → s.file_size ≡ s.pos + (k * (n - header_space) + e)
      → i + suc k ≤ 2 ^ 16
      → IsSeries m true 0 (capsules (suc k) p i s n from)
  last-IsSeries i s r size small =
      capsules-IsSeries p v n m from wide k 0 i s true r (omega arith)
        (is_short-rest (after_chunks k s n) n e (after_chunks-IsReading k s n r)
          (after_chunks-rest s n k e r size) less)
        (omega arith) (omega arith)

  -- A full window.
  pub full-IsSeries :
      (i : ℕ) (s : DataSource)
      → IsReading s n
      → s.pos + win_siz * (n - header_space) ≤ s.file_size
      → i + win_siz ≤ 2 ^ 16
      → IsSeries m false 0 (capsules win_siz p i s n from)
  full-IsSeries i s r whole small =
      let four : s.pos + 4 * (n - header_space) ≤ s.file_size = omega arith in
      let a4 = after_chunks-pos 4 s n r four in
      let b4 = after_chunks-file_size 4 s n in
      capsules-IsSeries p v n m from wide 4 0 i s false r four
        (is_short-full (after_chunks 4 s n) n (after_chunks-IsReading 4 s n r) (omega arith))
        (omega arith) (omega arith)

  -- The windows of a file are what a receiver takes, if the identifiers do not wrap.
  pub file_capsules-IsFileSeries :
      (j i : ℕ) (s : DataSource)
      → IsReading s n
      → s.file_size ≡ s.pos + (j * (win_siz * (n - header_space)) + (k * (n - header_space) + e))
      → i + (j * win_siz + suc k) ≤ 2 ^ 16
      → IsFileSeries m (file_capsules j k p i s n from)
  file_capsules-IsFileSeries zero i s r size small =
      let l = length-capsules (suc k) p i s n from in
      (last-IsSeries i s r (omega arith) (omega arith), omega arith)
  file_capsules-IsFileSeries (suc j) i s r size small =
      let whole : s.pos + win_siz * (n - header_space) ≤ s.file_size = omega arith in
      let a = after_chunks-pos win_siz s n r whole in
      let b = after_chunks-file_size win_siz s n in
      IsFileSeries-cons m (capsules win_siz p i s n from) _
        (full-IsSeries i s r whole (omega arith)) (length-capsules win_siz p i s n from)
        (file_capsules-IsFileSeries j (i + win_siz) (after_chunks win_siz s n)
          (after_chunks-IsReading win_siz s n r) (omega arith) (omega arith))

  -- Their payloads are what was left of the file.
  pub file_capsules-bytes :
      (j i : ℕ) (s : DataSource)
      → IsReading s n
      → s.file_size ≡ s.pos + (j * (win_siz * (n - header_space)) + (k * (n - header_space) + e))
      → all_bytes (file_capsules j k p i s n from) ≡ drop s.pos s.content
  file_capsules-bytes zero i s r size =
      let through = after_chunks-end k e s n r (omega arith) less in
      append-nil (window_bytes (payloads_of (capsules (suc k) p i s n from)))
      ∙ sym (append-nil _)
      ∙ ap (◌++◌ (window_bytes (payloads_of (capsules (suc k) p i s n from))))
          (sym (drop-all (after_chunks (suc k) s n).pos s.content through))
      ∙ capsules-rest (suc k) p i s n from
  file_capsules-bytes (suc j) i s r size =
      let whole : s.pos + win_siz * (n - header_space) ≤ s.file_size = omega arith in
      let s' = after_chunks win_siz s n in
      let a = after_chunks-pos win_siz s n r whole in
      let b = after_chunks-file_size win_siz s n in
      ap (◌++◌ (window_bytes (payloads_of (capsules win_siz p i s n from)))) (
        file_capsules-bytes j (i + win_siz) s' (after_chunks-IsReading win_siz s n r) (omega arith)
        ∙ ap (drop s'.pos) (after_chunks-content win_siz s n))
      ∙ capsules-rest win_siz p i s n from
