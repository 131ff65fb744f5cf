-- ===== src/Ftype/Types.antt =====
-- The tables of file types: ports/ftype.c, `types`, and init/ftype.c, `flist`.
use Prim.Native.String.{String}
use tencryption.Prelude.{ℕ, List, [], ◌∷◌}
use tencryption.Prelude.Text.{codes}
use tencryption.Ftype.Tids.{
  tid_doc, tid_docx, tid_dot, tid_dotx, tid_wps, tid_wpt, tid_ppt, tid_pptx, tid_pot, tid_potx,
  tid_pps, tid_dps, tid_dpt, tid_xls, tid_xlt, tid_xlsx, tid_xltx, tid_et, tid_ett, tid_pdf,
  tid_txt, tid_jpg, tid_jpeg, tid_jpeg2000, tid_png, tid_bmp, tid_gif, tid_tif, tid_tiff, tid_cd,
  tid_wav, tid_mp3, tid_wma, tid_ape, tid_flac, tid_mid, tid_avi, tid_mov, tid_wmv, tid_3gp,
  tid_mp4, tid_mp4_tmp, tid_rmvb, tid_mpeg, tid_rar, tid_zip,
}
use tencryption.Ftype.Fids

-- `struct type`, and `struct ftype` of init/ftype.c.
pub record FileType : Type 0 where
  pub name : List ℕ
  pub id : ℕ

abbrev file_type : String → ℕ → FileType
file_type s n = record { name = codes s; id = n }

abbrev pub types : List FileType
types =
    file_type ".doc" tid_doc
    ∷ file_type ".docx" tid_docx
    ∷ file_type ".dot" tid_dot
    ∷ file_type ".dotx" tid_dotx
    ∷ file_type ".wps" tid_wps
    ∷ file_type ".wpt" tid_wpt
    ∷ file_type ".ppt" tid_ppt
    ∷ file_type ".pptx" tid_pptx
    ∷ file_type ".pot" tid_pot
    ∷ file_type ".potx" tid_potx
    ∷ file_type ".pps" tid_pps
    ∷ file_type ".dps" tid_dps
    ∷ file_type ".dpt" tid_dpt
    ∷ file_type ".xls" tid_xls
    ∷ file_type ".xlt" tid_xlt
    ∷ file_type ".xlsx" tid_xlsx
    ∷ file_type ".xltx" tid_xltx
    ∷ file_type ".et" tid_et
    ∷ file_type ".ett" tid_ett
    ∷ file_type ".pdf" tid_pdf
    ∷ file_type ".txt" tid_txt
    ∷ file_type ".jpg" tid_jpg
    ∷ file_type ".jpeg" tid_jpeg
    ∷ file_type ".jpeg2000" tid_jpeg2000
    ∷ file_type ".png" tid_png
    ∷ file_type ".bmp" tid_bmp
    ∷ file_type ".gif" tid_gif
    ∷ file_type ".tif" tid_tif
    ∷ file_type ".tiff" tid_tiff
    ∷ file_type ".cd" tid_cd
    ∷ file_type ".wav" tid_wav
    ∷ file_type ".mp3" tid_mp3
    ∷ file_type ".wma" tid_wma
    ∷ file_type ".ape" tid_ape
    ∷ file_type ".flac" tid_flac
    ∷ file_type ".mid" tid_mid
    ∷ file_type ".avi" tid_avi
    ∷ file_type ".mov" tid_mov
    ∷ file_type ".wmv" tid_wmv
    ∷ file_type ".3gp" tid_3gp
    ∷ file_type ".mp4" tid_mp4
    ∷ file_type ".mp4.tmp" tid_mp4_tmp
    ∷ file_type ".rmvb" tid_rmvb
    ∷ file_type ".mpeg" tid_mpeg
    ∷ file_type ".rar" tid_rar
    ∷ file_type ".zip" tid_zip
    ∷ []

abbrev pub flist : List FileType
flist =
    file_type ".doc" Fids.tid_doc
    ∷ file_type ".docx" Fids.tid_docx
    ∷ file_type ".dot" Fids.tid_dot
    ∷ file_type ".dotx" Fids.tid_dotx
    ∷ file_type ".wps" Fids.tid_wps
    ∷ file_type ".wpt" Fids.tid_wpt
    ∷ file_type ".ppt" Fids.tid_ppt
    ∷ file_type ".pptx" Fids.tid_pptx
    ∷ file_type ".pot" Fids.tid_pot
    ∷ file_type ".potx" Fids.tid_potx
    ∷ file_type ".pps" Fids.tid_pps
    ∷ file_type ".dps" Fids.tid_dps
    ∷ file_type ".dpt" Fids.tid_dpt
    ∷ file_type ".xls" Fids.tid_xls
    ∷ file_type ".xlt" Fids.tid_xlt
    ∷ file_type ".xlsx" Fids.tid_xlsx
    ∷ file_type ".xltx" Fids.tid_xltx
    ∷ file_type ".et" Fids.tid_et
    ∷ file_type ".ett" Fids.tid_ett
    ∷ file_type ".pdf" Fids.tid_pdf
    ∷ file_type ".txt" Fids.tid_txt
    ∷ file_type ".jpg" Fids.tid_jpg
    ∷ file_type ".jpeg" Fids.tid_jpeg
    ∷ file_type ".jpeg2000" Fids.tid_jpeg2000
    ∷ file_type ".png" Fids.tid_png
    ∷ file_type ".bmp" Fids.tid_bmp
    ∷ file_type ".gif" Fids.tid_gif
    ∷ file_type ".tif" Fids.tid_tif
    ∷ file_type ".tiff" Fids.tid_tiff
    ∷ file_type ".cd" Fids.tid_cd
    ∷ file_type ".wav" Fids.tid_wav
    ∷ file_type ".mp3" Fids.tid_mp3
    ∷ file_type ".wma" Fids.tid_wma
    ∷ file_type ".ape" Fids.tid_ape
    ∷ file_type ".flac" Fids.tid_flac
    ∷ file_type ".mid" Fids.tid_mid
    ∷ file_type ".avi" Fids.tid_avi
    ∷ file_type ".mov" Fids.tid_mov
    ∷ file_type ".wmv" Fids.tid_wmv
    ∷ file_type ".3gp" Fids.tid_3gp
    ∷ file_type ".mp4" Fids.tid_mp4
    ∷ file_type ".mp4.tmp" Fids.tid_mp4_tmp
    ∷ file_type ".rmvb" Fids.tid_rmvb
    ∷ file_type ".mpeg" Fids.tid_mpeg
    ∷ file_type ".rar" Fids.tid_rar
    ∷ file_type ".zip" Fids.tid_zip
    ∷ []
