-- ===== src/Ftype/Fids.antt =====
-- init/ftype.h: the numbers of the file types.
use tencryption.Prelude.{ℕ}

abbrev pub tid_doc : ℕ
tid_doc = 100

abbrev pub tid_docx : ℕ
tid_docx = 101

abbrev pub tid_dot : ℕ
tid_dot = 102

abbrev pub tid_dotx : ℕ
tid_dotx = 103

abbrev pub tid_wps : ℕ
tid_wps = 104

abbrev pub tid_wpt : ℕ
tid_wpt = 105

abbrev pub tid_ppt : ℕ
tid_ppt = 106

abbrev pub tid_pptx : ℕ
tid_pptx = 107

abbrev pub tid_pot : ℕ
tid_pot = 108

abbrev pub tid_potx : ℕ
tid_potx = 109

abbrev pub tid_pps : ℕ
tid_pps = 110

abbrev pub tid_dps : ℕ
tid_dps = 111

abbrev pub tid_dpt : ℕ
tid_dpt = 112

abbrev pub tid_xls : ℕ
tid_xls = 113

abbrev pub tid_xlt : ℕ
tid_xlt = 114

abbrev pub tid_xlsx : ℕ
tid_xlsx = 115

abbrev pub tid_xltx : ℕ
tid_xltx = 116

abbrev pub tid_et : ℕ
tid_et = 117

abbrev pub tid_ett : ℕ
tid_ett = 118

abbrev pub tid_pdf : ℕ
tid_pdf = 119

abbrev pub tid_txt : ℕ
tid_txt = 120

abbrev pub tid_jpg : ℕ
tid_jpg = 200

abbrev pub tid_jpeg : ℕ
tid_jpeg = 201

abbrev pub tid_jpeg2000 : ℕ
tid_jpeg2000 = 202

abbrev pub tid_png : ℕ
tid_png = 203

abbrev pub tid_bmp : ℕ
tid_bmp = 204

abbrev pub tid_gif : ℕ
tid_gif = 205

abbrev pub tid_tif : ℕ
tid_tif = 206

abbrev pub tid_tiff : ℕ
tid_tiff = 207

abbrev pub tid_cd : ℕ
tid_cd = 300

abbrev pub tid_wav : ℕ
tid_wav = 301

abbrev pub tid_mp3 : ℕ
tid_mp3 = 302

abbrev pub tid_wma : ℕ
tid_wma = 303

abbrev pub tid_ape : ℕ
tid_ape = 304

abbrev pub tid_flac : ℕ
tid_flac = 305

abbrev pub tid_mid : ℕ
tid_mid = 306

abbrev pub tid_avi : ℕ
tid_avi = 400

abbrev pub tid_mov : ℕ
tid_mov = 401

abbrev pub tid_wmv : ℕ
tid_wmv = 402

abbrev pub tid_3gp : ℕ
tid_3gp = 403

abbrev pub tid_mp4 : ℕ
tid_mp4 = 404

abbrev pub tid_mp4_tmp : ℕ
tid_mp4_tmp = 405

abbrev pub tid_rmvb : ℕ
tid_rmvb = 406

abbrev pub tid_mpeg : ℕ
tid_mpeg = 407

abbrev pub tid_rar : ℕ
tid_rar = 500

abbrev pub tid_zip : ℕ
tid_zip = 501
