-- ===== src/Ftype/Tids.antt =====
-- ports/ftype.c: the numbers of the file types, counted on as in an `enum`.
use tencryption.Prelude.{ℕ, ◌+◌}

abbrev pub tid_doc : ℕ
tid_doc = 100

abbrev pub tid_docx : ℕ
tid_docx = tid_doc + 1

abbrev pub tid_dot : ℕ
tid_dot = tid_docx + 1

abbrev pub tid_dotx : ℕ
tid_dotx = tid_dot + 1

abbrev pub tid_wps : ℕ
tid_wps = tid_dotx + 1

abbrev pub tid_wpt : ℕ
tid_wpt = tid_wps + 1

abbrev pub tid_ppt : ℕ
tid_ppt = tid_wpt + 1

abbrev pub tid_pptx : ℕ
tid_pptx = tid_ppt + 1

abbrev pub tid_pot : ℕ
tid_pot = tid_pptx + 1

abbrev pub tid_potx : ℕ
tid_potx = tid_pot + 1

abbrev pub tid_pps : ℕ
tid_pps = tid_potx + 1

abbrev pub tid_dps : ℕ
tid_dps = tid_pps + 1

abbrev pub tid_dpt : ℕ
tid_dpt = tid_dps + 1

abbrev pub tid_xls : ℕ
tid_xls = tid_dpt + 1

abbrev pub tid_xlt : ℕ
tid_xlt = tid_xls + 1

abbrev pub tid_xlsx : ℕ
tid_xlsx = tid_xlt + 1

abbrev pub tid_xltx : ℕ
tid_xltx = tid_xlsx + 1

abbrev pub tid_et : ℕ
tid_et = tid_xltx + 1

abbrev pub tid_ett : ℕ
tid_ett = tid_et + 1

abbrev pub tid_pdf : ℕ
tid_pdf = tid_ett + 1

abbrev pub tid_txt : ℕ
tid_txt = tid_pdf + 1

abbrev pub tid_jpg : ℕ
tid_jpg = 200

abbrev pub tid_jpeg : ℕ
tid_jpeg = tid_jpg + 1

abbrev pub tid_jpeg2000 : ℕ
tid_jpeg2000 = tid_jpeg + 1

abbrev pub tid_png : ℕ
tid_png = tid_jpeg2000 + 1

abbrev pub tid_bmp : ℕ
tid_bmp = tid_png + 1

abbrev pub tid_gif : ℕ
tid_gif = tid_bmp + 1

abbrev pub tid_tif : ℕ
tid_tif = tid_gif + 1

abbrev pub tid_tiff : ℕ
tid_tiff = tid_tif + 1

abbrev pub tid_cd : ℕ
tid_cd = 300

abbrev pub tid_wav : ℕ
tid_wav = tid_cd + 1

abbrev pub tid_mp3 : ℕ
tid_mp3 = tid_wav + 1

abbrev pub tid_wma : ℕ
tid_wma = tid_mp3 + 1

abbrev pub tid_ape : ℕ
tid_ape = tid_wma + 1

abbrev pub tid_flac : ℕ
tid_flac = tid_ape + 1

abbrev pub tid_mid : ℕ
tid_mid = tid_flac + 1

abbrev pub tid_avi : ℕ
tid_avi = 400

abbrev pub tid_mov : ℕ
tid_mov = tid_avi + 1

abbrev pub tid_wmv : ℕ
tid_wmv = tid_mov + 1

abbrev pub tid_3gp : ℕ
tid_3gp = tid_wmv + 1

abbrev pub tid_mp4 : ℕ
tid_mp4 = tid_3gp + 1

abbrev pub tid_mp4_tmp : ℕ
tid_mp4_tmp = tid_mp4 + 1

abbrev pub tid_rmvb : ℕ
tid_rmvb = tid_mp4_tmp + 1

abbrev pub tid_mpeg : ℕ
tid_mpeg = tid_rmvb + 1

abbrev pub tid_rar : ℕ
tid_rar = 500

abbrev pub tid_zip : ℕ
tid_zip = tid_rar + 1
