-- ===== src/Files/Calls/Resumed.antt =====
-- What the callbacks of files (src/lua-eio.c) do with a request that is held.
use alilua_coevent_module.Prelude.{
  ℕ, ℤ, pos, negsuc, ◌≡◌, refl, true, List, [], ◌∷◌, Option, none, some, All, by_test, ◌==◌,
}
use alilua_coevent_module.Files.{
  Callback, res_cb, readdir_cb, stat_cb, isdir_cb, isfile_cb, exists_cb, read_cb, seek_cb, open_cb,
  Value, message,
}
use alilua_coevent_module.Files.Done.{
  Reply, Woken, nobody, woken, called_back, failure, outcome, listing, content, position, if_zero,
  opening, file_type, eio_res_cb, eio_readdir_cb, eio_stat_cb, eio_stat_isdir_cb,
  eio_stat_isfile_cb, eio_stat_exists_cb, eio_read_cb, eio_seek_cb, eio_open_cb,
}
use alilua_coevent_module.Files.Calls.{handles_of}
use alilua_coevent_module.Files.Calls.Answered.{IsOpen}
use alilua_coevent_module.Files.Calls.Steps.{IsHeldBy}

-- What a callback does with a request that is held.
pub data IsResumed (w : Option ℕ) : Woken → Type 0 where
  by_nobody : w ≡ none → IsResumed w nobody
  resumes :
      (l : ℕ) (vs : List Value) → w ≡ some l → All IsOpen (handles_of vs) → IsResumed w (woken l vs)

resumes_with :
    (l : ℕ) (vs : List Value) → All IsOpen (handles_of vs) → IsResumed (some l) (woken l vs)
resumes_with l vs h = resumes l vs refl h

-- No callback but that of `open` gives a handle.
abbrev HasNone : List Value → Type 0
HasNone vs = All IsOpen (handles_of vs)

outcome-HasNone : (e : Reply) (z : ℤ) → HasNone (outcome e z)
outcome-HasNone e (pos n) = tt
outcome-HasNone e (negsuc n) = tt

listing-HasNone : (e : Reply) (z : ℤ) → HasNone (listing e z)
listing-HasNone e (pos n) = tt
listing-HasNone e (negsuc n) = tt

content-HasNone : (e : Reply) (z : ℤ) → HasNone (content e z)
content-HasNone e (pos n) = tt
content-HasNone e (negsuc n) = tt

position-HasNone : (e : Reply) (z : ℤ) → HasNone (position e z)
position-HasNone e (pos n) = tt
position-HasNone e (negsuc n) = tt

if_zero-HasNone : (e : Reply) (z : ℤ) (v : Value) → HasNone (v ∷ []) → HasNone (if_zero e z v)
if_zero-HasNone e (pos n) v h = by_test HasNone (n == 0) (v ∷ []) (failure e) h tt
if_zero-HasNone e (negsuc n) v h = tt

opening-IsResumed :
    (l : ℕ) (e : Reply) (z : ℤ) → e.userdata ≡ true → IsResumed (some l) (opening l e z)
opening-IsResumed l e (pos n) u = rw u (resumes_with l _ (tt, tt))
opening-IsResumed l e (negsuc n) u = resumes_with l _ tt

pub called_back-IsResumed :
    (cb : Callback) (w : Option ℕ) (e : Reply)
    → IsHeldBy cb w
    → e.userdata ≡ true
    → IsResumed w (called_back cb w e)
unfolding eio_res_cb eio_readdir_cb eio_stat_cb eio_stat_isdir_cb eio_stat_isfile_cb
    eio_stat_exists_cb eio_read_cb eio_seek_cb eio_open_cb
called_back-IsResumed res_cb none e h u = by_nobody refl
called_back-IsResumed res_cb (some l) e h u = resumes_with l _ (outcome-HasNone e e.result)
called_back-IsResumed readdir_cb (some l) e h u = resumes_with l _ (listing-HasNone e e.result)
called_back-IsResumed stat_cb (some l) e h u = resumes_with l _ (if_zero-HasNone e e.result _ tt)
called_back-IsResumed isdir_cb (some l) e h u = resumes_with l _ (if_zero-HasNone e e.result _ tt)
called_back-IsResumed isfile_cb (some l) e h u = resumes_with l _ (if_zero-HasNone e e.result _ tt)
called_back-IsResumed exists_cb (some l) e h u =
    let P : Value → Type 0 = λ v. HasNone (v ∷ []) in
    resumes_with l _ (
      if_zero-HasNone e e.result _
        (by_test P (file_type e.stat_buf.st_mode == 4) (message "dir") (message "file") tt tt))
called_back-IsResumed read_cb (some l) e h u = resumes_with l _ (content-HasNone e e.result)
called_back-IsResumed seek_cb (some l) e h u = resumes_with l _ (position-HasNone e e.result)
called_back-IsResumed open_cb (some l) e h u = opening-IsResumed l e e.result u
called_back-IsResumed readdir_cb none e h u = absurd (cc)
called_back-IsResumed stat_cb none e h u = absurd (cc)
called_back-IsResumed isdir_cb none e h u = absurd (cc)
called_back-IsResumed isfile_cb none e h u = absurd (cc)
called_back-IsResumed exists_cb none e h u = absurd (cc)
called_back-IsResumed read_cb none e h u = absurd (cc)
called_back-IsResumed seek_cb none e h u = absurd (cc)
called_back-IsResumed open_cb none e h u = absurd (cc)
