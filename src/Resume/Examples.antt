-- ===== src/Resume/Examples.antt =====
-- A saved torrent of ten pieces, and the theorems of the module beside this one at it.
use aiobt.Python.Decimal.{pos}
use aiobt.Resume.Laws.{load_resume_sound, load_resume-save_resume}
use aiobt.Python.IntSet.{has}
use aiobt.Bencode.Decode.{decode}
use aiobt.Python.Bytes.{Bytes}
use aiobt.Python.Result.{raised, ok, Result}
use aiobt.Bencode.Value.{int, bytes, dict, Fields}
use aiobt.Resume.{key_piece_count, key_info_hash, lookup, load_resume, save_resume, ResumeData}
use aiobt.Prelude.{true, none, arith, ◌∷◌, refl, [], ◌≡◌, ◌<◌, some, All, ℕ, suc}

abbrev hash : Bytes
hash = 7 ∷ 255 ∷ []

-- d8:bitfield2:..10:downloadedi40e9:info_hash2:..11:piece_counti10e8:uploadedi5ee
abbrev saved : Result Bytes
saved = save_resume hash (9 ∷ 0 ∷ 3 ∷ []) 10 40 5

abbrev file_of : Result Bytes → Bytes
file_of (ok b) = b
file_of (raised e) = []

abbrev saved_file : Bytes
saved_file = file_of saved

save_saved : save_resume hash (9 ∷ 0 ∷ 3 ∷ []) 10 40 5 ≡ ok saved_file
unfolding save_resume
save_saved = refl

saved_within : All (λ i. i < 10) (9 ∷ 0 ∷ 3 ∷ [])
saved_within = (omega arith, (omega arith, (omega arith, tt)))

abbrev loaded : ResumeData
loaded = record { info_hash = hash; have = 0 ∷ 3 ∷ 9 ∷ []; downloaded = pos 40; uploaded = pos 5 }

load_saved : load_resume (some saved_file) hash ≡ ok (some loaded)
unfolding load_resume save_resume
load_saved = refl

other_hash : load_resume (some saved_file) (8 ∷ []) ≡ ok none
unfolding load_resume save_resume
other_hash = refl

load_resume-save_resume_example :
    (data' : ResumeData) × (load_resume (some saved_file) hash ≡ ok (some data'))
    × (data'.info_hash ≡ hash)
    × ((i : ℕ) → has i data'.have ≡ has i (9 ∷ 0 ∷ 3 ∷ []))
    × (data'.downloaded ≡ pos 40)
    × (data'.uploaded ≡ pos 5)
load_resume-save_resume_example =
    load_resume-save_resume hash (9 ∷ 0 ∷ 3 ∷ []) 9 40 5 saved_within save_saved

load_resume_sound_example :
    (fs : Fields) × (n : ℕ) × (decode saved_file ≡ ok (dict fs))
    × (hash ≡ hash)
    × (lookup key_info_hash fs ≡ some (bytes hash))
    × (lookup key_piece_count fs ≡ some (int (pos (suc n))))
    × ((i : ℕ) → has i loaded.have ≡ true → i < suc n)
load_resume_sound_example = load_resume_sound saved_file hash load_saved
