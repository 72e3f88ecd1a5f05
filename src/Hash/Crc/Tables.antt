-- ===== src/Hash/Crc/Tables.antt =====
-- The tables of up to 32 bits of src/hash/crc_tables.h.
use libclod.Prelude.{ℕ, List, [], ◌∷◌}

abbrev pub crc32_table : List ℕ
crc32_table =
    0x0 ∷ 0x77073096 ∷ 0xEE0E612C ∷ 0x990951BA ∷ 0x76DC419 ∷ 0x706AF48F ∷ 0xE963A535 ∷ 0x9E6495A3
    ∷ 0xEDB8832 ∷ 0x79DCB8A4 ∷ 0xE0D5E91E ∷ 0x97D2D988 ∷ 0x9B64C2B ∷ 0x7EB17CBD ∷ 0xE7B82D07
    ∷ 0x90BF1D91 ∷ 0x1DB71064 ∷ 0x6AB020F2 ∷ 0xF3B97148 ∷ 0x84BE41DE ∷ 0x1ADAD47D ∷ 0x6DDDE4EB
    ∷ 0xF4D4B551 ∷ 0x83D385C7 ∷ 0x136C9856 ∷ 0x646BA8C0 ∷ 0xFD62F97A ∷ 0x8A65C9EC ∷ 0x14015C4F
    ∷ 0x63066CD9 ∷ 0xFA0F3D63 ∷ 0x8D080DF5 ∷ 0x3B6E20C8 ∷ 0x4C69105E ∷ 0xD56041E4 ∷ 0xA2677172
    ∷ 0x3C03E4D1 ∷ 0x4B04D447 ∷ 0xD20D85FD ∷ 0xA50AB56B ∷ 0x35B5A8FA ∷ 0x42B2986C ∷ 0xDBBBC9D6
    ∷ 0xACBCF940 ∷ 0x32D86CE3 ∷ 0x45DF5C75 ∷ 0xDCD60DCF ∷ 0xABD13D59 ∷ 0x26D930AC ∷ 0x51DE003A
    ∷ 0xC8D75180 ∷ 0xBFD06116 ∷ 0x21B4F4B5 ∷ 0x56B3C423 ∷ 0xCFBA9599 ∷ 0xB8BDA50F ∷ 0x2802B89E
    ∷ 0x5F058808 ∷ 0xC60CD9B2 ∷ 0xB10BE924 ∷ 0x2F6F7C87 ∷ 0x58684C11 ∷ 0xC1611DAB ∷ 0xB6662D3D
    ∷ 0x76DC4190 ∷ 0x1DB7106 ∷ 0x98D220BC ∷ 0xEFD5102A ∷ 0x71B18589 ∷ 0x6B6B51F ∷ 0x9FBFE4A5
    ∷ 0xE8B8D433 ∷ 0x7807C9A2 ∷ 0xF00F934 ∷ 0x9609A88E ∷ 0xE10E9818 ∷ 0x7F6A0DBB ∷ 0x86D3D2D
    ∷ 0x91646C97 ∷ 0xE6635C01 ∷ 0x6B6B51F4 ∷ 0x1C6C6162 ∷ 0x856530D8 ∷ 0xF262004E ∷ 0x6C0695ED
    ∷ 0x1B01A57B ∷ 0x8208F4C1 ∷ 0xF50FC457 ∷ 0x65B0D9C6 ∷ 0x12B7E950 ∷ 0x8BBEB8EA ∷ 0xFCB9887C
    ∷ 0x62DD1DDF ∷ 0x15DA2D49 ∷ 0x8CD37CF3 ∷ 0xFBD44C65 ∷ 0x4DB26158 ∷ 0x3AB551CE ∷ 0xA3BC0074
    ∷ 0xD4BB30E2 ∷ 0x4ADFA541 ∷ 0x3DD895D7 ∷ 0xA4D1C46D ∷ 0xD3D6F4FB ∷ 0x4369E96A ∷ 0x346ED9FC
    ∷ 0xAD678846 ∷ 0xDA60B8D0 ∷ 0x44042D73 ∷ 0x33031DE5 ∷ 0xAA0A4C5F ∷ 0xDD0D7CC9 ∷ 0x5005713C
    ∷ 0x270241AA ∷ 0xBE0B1010 ∷ 0xC90C2086 ∷ 0x5768B525 ∷ 0x206F85B3 ∷ 0xB966D409 ∷ 0xCE61E49F
    ∷ 0x5EDEF90E ∷ 0x29D9C998 ∷ 0xB0D09822 ∷ 0xC7D7A8B4 ∷ 0x59B33D17 ∷ 0x2EB40D81 ∷ 0xB7BD5C3B
    ∷ 0xC0BA6CAD ∷ 0xEDB88320 ∷ 0x9ABFB3B6 ∷ 0x3B6E20C ∷ 0x74B1D29A ∷ 0xEAD54739 ∷ 0x9DD277AF
    ∷ 0x4DB2615 ∷ 0x73DC1683 ∷ 0xE3630B12 ∷ 0x94643B84 ∷ 0xD6D6A3E ∷ 0x7A6A5AA8 ∷ 0xE40ECF0B
    ∷ 0x9309FF9D ∷ 0xA00AE27 ∷ 0x7D079EB1 ∷ 0xF00F9344 ∷ 0x8708A3D2 ∷ 0x1E01F268 ∷ 0x6906C2FE
    ∷ 0xF762575D ∷ 0x806567CB ∷ 0x196C3671 ∷ 0x6E6B06E7 ∷ 0xFED41B76 ∷ 0x89D32BE0 ∷ 0x10DA7A5A
    ∷ 0x67DD4ACC ∷ 0xF9B9DF6F ∷ 0x8EBEEFF9 ∷ 0x17B7BE43 ∷ 0x60B08ED5 ∷ 0xD6D6A3E8 ∷ 0xA1D1937E
    ∷ 0x38D8C2C4 ∷ 0x4FDFF252 ∷ 0xD1BB67F1 ∷ 0xA6BC5767 ∷ 0x3FB506DD ∷ 0x48B2364B ∷ 0xD80D2BDA
    ∷ 0xAF0A1B4C ∷ 0x36034AF6 ∷ 0x41047A60 ∷ 0xDF60EFC3 ∷ 0xA867DF55 ∷ 0x316E8EEF ∷ 0x4669BE79
    ∷ 0xCB61B38C ∷ 0xBC66831A ∷ 0x256FD2A0 ∷ 0x5268E236 ∷ 0xCC0C7795 ∷ 0xBB0B4703 ∷ 0x220216B9
    ∷ 0x5505262F ∷ 0xC5BA3BBE ∷ 0xB2BD0B28 ∷ 0x2BB45A92 ∷ 0x5CB36A04 ∷ 0xC2D7FFA7 ∷ 0xB5D0CF31
    ∷ 0x2CD99E8B ∷ 0x5BDEAE1D ∷ 0x9B64C2B0 ∷ 0xEC63F226 ∷ 0x756AA39C ∷ 0x26D930A ∷ 0x9C0906A9
    ∷ 0xEB0E363F ∷ 0x72076785 ∷ 0x5005713 ∷ 0x95BF4A82 ∷ 0xE2B87A14 ∷ 0x7BB12BAE ∷ 0xCB61B38
    ∷ 0x92D28E9B ∷ 0xE5D5BE0D ∷ 0x7CDCEFB7 ∷ 0xBDBDF21 ∷ 0x86D3D2D4 ∷ 0xF1D4E242 ∷ 0x68DDB3F8
    ∷ 0x1FDA836E ∷ 0x81BE16CD ∷ 0xF6B9265B ∷ 0x6FB077E1 ∷ 0x18B74777 ∷ 0x88085AE6 ∷ 0xFF0F6A70
    ∷ 0x66063BCA ∷ 0x11010B5C ∷ 0x8F659EFF ∷ 0xF862AE69 ∷ 0x616BFFD3 ∷ 0x166CCF45 ∷ 0xA00AE278
    ∷ 0xD70DD2EE ∷ 0x4E048354 ∷ 0x3903B3C2 ∷ 0xA7672661 ∷ 0xD06016F7 ∷ 0x4969474D ∷ 0x3E6E77DB
    ∷ 0xAED16A4A ∷ 0xD9D65ADC ∷ 0x40DF0B66 ∷ 0x37D83BF0 ∷ 0xA9BCAE53 ∷ 0xDEBB9EC5 ∷ 0x47B2CF7F
    ∷ 0x30B5FFE9 ∷ 0xBDBDF21C ∷ 0xCABAC28A ∷ 0x53B39330 ∷ 0x24B4A3A6 ∷ 0xBAD03605 ∷ 0xCDD70693
    ∷ 0x54DE5729 ∷ 0x23D967BF ∷ 0xB3667A2E ∷ 0xC4614AB8 ∷ 0x5D681B02 ∷ 0x2A6F2B94 ∷ 0xB40BBE37
    ∷ 0xC30C8EA1 ∷ 0x5A05DF1B ∷ 0x2D02EF8D ∷ []

abbrev pub crc24_table : List ℕ
crc24_table =
    0x0 ∷ 0x864CFB ∷ 0x8AD50D ∷ 0xC99F6 ∷ 0x93E6E1 ∷ 0x15AA1A ∷ 0x1933EC ∷ 0x9F7F17 ∷ 0xA18139
    ∷ 0x27CDC2 ∷ 0x2B5434 ∷ 0xAD18CF ∷ 0x3267D8 ∷ 0xB42B23 ∷ 0xB8B2D5 ∷ 0x3EFE2E ∷ 0xC54E89
    ∷ 0x430272 ∷ 0x4F9B84 ∷ 0xC9D77F ∷ 0x56A868 ∷ 0xD0E493 ∷ 0xDC7D65 ∷ 0x5A319E ∷ 0x64CFB0
    ∷ 0xE2834B ∷ 0xEE1ABD ∷ 0x685646 ∷ 0xF72951 ∷ 0x7165AA ∷ 0x7DFC5C ∷ 0xFBB0A7 ∷ 0xCD1E9
    ∷ 0x8A9D12 ∷ 0x8604E4 ∷ 0x481F ∷ 0x9F3708 ∷ 0x197BF3 ∷ 0x15E205 ∷ 0x93AEFE ∷ 0xAD50D0 ∷ 0x2B1C2B
    ∷ 0x2785DD ∷ 0xA1C926 ∷ 0x3EB631 ∷ 0xB8FACA ∷ 0xB4633C ∷ 0x322FC7 ∷ 0xC99F60 ∷ 0x4FD39B
    ∷ 0x434A6D ∷ 0xC50696 ∷ 0x5A7981 ∷ 0xDC357A ∷ 0xD0AC8C ∷ 0x56E077 ∷ 0x681E59 ∷ 0xEE52A2
    ∷ 0xE2CB54 ∷ 0x6487AF ∷ 0xFBF8B8 ∷ 0x7DB443 ∷ 0x712DB5 ∷ 0xF7614E ∷ 0x19A3D2 ∷ 0x9FEF29
    ∷ 0x9376DF ∷ 0x153A24 ∷ 0x8A4533 ∷ 0xC09C8 ∷ 0x903E ∷ 0x86DCC5 ∷ 0xB822EB ∷ 0x3E6E10 ∷ 0x32F7E6
    ∷ 0xB4BB1D ∷ 0x2BC40A ∷ 0xAD88F1 ∷ 0xA11107 ∷ 0x275DFC ∷ 0xDCED5B ∷ 0x5AA1A0 ∷ 0x563856
    ∷ 0xD074AD ∷ 0x4F0BBA ∷ 0xC94741 ∷ 0xC5DEB7 ∷ 0x43924C ∷ 0x7D6C62 ∷ 0xFB2099 ∷ 0xF7B96F
    ∷ 0x71F594 ∷ 0xEE8A83 ∷ 0x68C678 ∷ 0x645F8E ∷ 0xE21375 ∷ 0x15723B ∷ 0x933EC0 ∷ 0x9FA736
    ∷ 0x19EBCD ∷ 0x8694DA ∷ 0xD821 ∷ 0xC41D7 ∷ 0x8A0D2C ∷ 0xB4F302 ∷ 0x32BFF9 ∷ 0x3E260F ∷ 0xB86AF4
    ∷ 0x2715E3 ∷ 0xA15918 ∷ 0xADC0EE ∷ 0x2B8C15 ∷ 0xD03CB2 ∷ 0x567049 ∷ 0x5AE9BF ∷ 0xDCA544
    ∷ 0x43DA53 ∷ 0xC596A8 ∷ 0xC90F5E ∷ 0x4F43A5 ∷ 0x71BD8B ∷ 0xF7F170 ∷ 0xFB6886 ∷ 0x7D247D
    ∷ 0xE25B6A ∷ 0x641791 ∷ 0x688E67 ∷ 0xEEC29C ∷ 0x3347A4 ∷ 0xB50B5F ∷ 0xB992A9 ∷ 0x3FDE52
    ∷ 0xA0A145 ∷ 0x26EDBE ∷ 0x2A7448 ∷ 0xAC38B3 ∷ 0x92C69D ∷ 0x148A66 ∷ 0x181390 ∷ 0x9E5F6B
    ∷ 0x1207C ∷ 0x876C87 ∷ 0x8BF571 ∷ 0xDB98A ∷ 0xF6092D ∷ 0x7045D6 ∷ 0x7CDC20 ∷ 0xFA90DB ∷ 0x65EFCC
    ∷ 0xE3A337 ∷ 0xEF3AC1 ∷ 0x69763A ∷ 0x578814 ∷ 0xD1C4EF ∷ 0xDD5D19 ∷ 0x5B11E2 ∷ 0xC46EF5
    ∷ 0x42220E ∷ 0x4EBBF8 ∷ 0xC8F703 ∷ 0x3F964D ∷ 0xB9DAB6 ∷ 0xB54340 ∷ 0x330FBB ∷ 0xAC70AC
    ∷ 0x2A3C57 ∷ 0x26A5A1 ∷ 0xA0E95A ∷ 0x9E1774 ∷ 0x185B8F ∷ 0x14C279 ∷ 0x928E82 ∷ 0xDF195
    ∷ 0x8BBD6E ∷ 0x872498 ∷ 0x16863 ∷ 0xFAD8C4 ∷ 0x7C943F ∷ 0x700DC9 ∷ 0xF64132 ∷ 0x693E25
    ∷ 0xEF72DE ∷ 0xE3EB28 ∷ 0x65A7D3 ∷ 0x5B59FD ∷ 0xDD1506 ∷ 0xD18CF0 ∷ 0x57C00B ∷ 0xC8BF1C
    ∷ 0x4EF3E7 ∷ 0x426A11 ∷ 0xC426EA ∷ 0x2AE476 ∷ 0xACA88D ∷ 0xA0317B ∷ 0x267D80 ∷ 0xB90297
    ∷ 0x3F4E6C ∷ 0x33D79A ∷ 0xB59B61 ∷ 0x8B654F ∷ 0xD29B4 ∷ 0x1B042 ∷ 0x87FCB9 ∷ 0x1883AE ∷ 0x9ECF55
    ∷ 0x9256A3 ∷ 0x141A58 ∷ 0xEFAAFF ∷ 0x69E604 ∷ 0x657FF2 ∷ 0xE33309 ∷ 0x7C4C1E ∷ 0xFA00E5
    ∷ 0xF69913 ∷ 0x70D5E8 ∷ 0x4E2BC6 ∷ 0xC8673D ∷ 0xC4FECB ∷ 0x42B230 ∷ 0xDDCD27 ∷ 0x5B81DC
    ∷ 0x57182A ∷ 0xD154D1 ∷ 0x26359F ∷ 0xA07964 ∷ 0xACE092 ∷ 0x2AAC69 ∷ 0xB5D37E ∷ 0x339F85
    ∷ 0x3F0673 ∷ 0xB94A88 ∷ 0x87B4A6 ∷ 0x1F85D ∷ 0xD61AB ∷ 0x8B2D50 ∷ 0x145247 ∷ 0x921EBC ∷ 0x9E874A
    ∷ 0x18CBB1 ∷ 0xE37B16 ∷ 0x6537ED ∷ 0x69AE1B ∷ 0xEFE2E0 ∷ 0x709DF7 ∷ 0xF6D10C ∷ 0xFA48FA
    ∷ 0x7C0401 ∷ 0x42FA2F ∷ 0xC4B6D4 ∷ 0xC82F22 ∷ 0x4E63D9 ∷ 0xD11CCE ∷ 0x575035 ∷ 0x5BC9C3
    ∷ 0xDD8538 ∷ []

abbrev pub crc16_table : List ℕ
crc16_table =
    0x0 ∷ 0x1189 ∷ 0x2312 ∷ 0x329B ∷ 0x4624 ∷ 0x57AD ∷ 0x6536 ∷ 0x74BF ∷ 0x8C48 ∷ 0x9DC1 ∷ 0xAF5A
    ∷ 0xBED3 ∷ 0xCA6C ∷ 0xDBE5 ∷ 0xE97E ∷ 0xF8F7 ∷ 0x1081 ∷ 0x108 ∷ 0x3393 ∷ 0x221A ∷ 0x56A5
    ∷ 0x472C ∷ 0x75B7 ∷ 0x643E ∷ 0x9CC9 ∷ 0x8D40 ∷ 0xBFDB ∷ 0xAE52 ∷ 0xDAED ∷ 0xCB64 ∷ 0xF9FF
    ∷ 0xE876 ∷ 0x2102 ∷ 0x308B ∷ 0x210 ∷ 0x1399 ∷ 0x6726 ∷ 0x76AF ∷ 0x4434 ∷ 0x55BD ∷ 0xAD4A
    ∷ 0xBCC3 ∷ 0x8E58 ∷ 0x9FD1 ∷ 0xEB6E ∷ 0xFAE7 ∷ 0xC87C ∷ 0xD9F5 ∷ 0x3183 ∷ 0x200A ∷ 0x1291
    ∷ 0x318 ∷ 0x77A7 ∷ 0x662E ∷ 0x54B5 ∷ 0x453C ∷ 0xBDCB ∷ 0xAC42 ∷ 0x9ED9 ∷ 0x8F50 ∷ 0xFBEF
    ∷ 0xEA66 ∷ 0xD8FD ∷ 0xC974 ∷ 0x4204 ∷ 0x538D ∷ 0x6116 ∷ 0x709F ∷ 0x420 ∷ 0x15A9 ∷ 0x2732
    ∷ 0x36BB ∷ 0xCE4C ∷ 0xDFC5 ∷ 0xED5E ∷ 0xFCD7 ∷ 0x8868 ∷ 0x99E1 ∷ 0xAB7A ∷ 0xBAF3 ∷ 0x5285
    ∷ 0x430C ∷ 0x7197 ∷ 0x601E ∷ 0x14A1 ∷ 0x528 ∷ 0x37B3 ∷ 0x263A ∷ 0xDECD ∷ 0xCF44 ∷ 0xFDDF
    ∷ 0xEC56 ∷ 0x98E9 ∷ 0x8960 ∷ 0xBBFB ∷ 0xAA72 ∷ 0x6306 ∷ 0x728F ∷ 0x4014 ∷ 0x519D ∷ 0x2522
    ∷ 0x34AB ∷ 0x630 ∷ 0x17B9 ∷ 0xEF4E ∷ 0xFEC7 ∷ 0xCC5C ∷ 0xDDD5 ∷ 0xA96A ∷ 0xB8E3 ∷ 0x8A78
    ∷ 0x9BF1 ∷ 0x7387 ∷ 0x620E ∷ 0x5095 ∷ 0x411C ∷ 0x35A3 ∷ 0x242A ∷ 0x16B1 ∷ 0x738 ∷ 0xFFCF
    ∷ 0xEE46 ∷ 0xDCDD ∷ 0xCD54 ∷ 0xB9EB ∷ 0xA862 ∷ 0x9AF9 ∷ 0x8B70 ∷ 0x8408 ∷ 0x9581 ∷ 0xA71A
    ∷ 0xB693 ∷ 0xC22C ∷ 0xD3A5 ∷ 0xE13E ∷ 0xF0B7 ∷ 0x840 ∷ 0x19C9 ∷ 0x2B52 ∷ 0x3ADB ∷ 0x4E64
    ∷ 0x5FED ∷ 0x6D76 ∷ 0x7CFF ∷ 0x9489 ∷ 0x8500 ∷ 0xB79B ∷ 0xA612 ∷ 0xD2AD ∷ 0xC324 ∷ 0xF1BF
    ∷ 0xE036 ∷ 0x18C1 ∷ 0x948 ∷ 0x3BD3 ∷ 0x2A5A ∷ 0x5EE5 ∷ 0x4F6C ∷ 0x7DF7 ∷ 0x6C7E ∷ 0xA50A
    ∷ 0xB483 ∷ 0x8618 ∷ 0x9791 ∷ 0xE32E ∷ 0xF2A7 ∷ 0xC03C ∷ 0xD1B5 ∷ 0x2942 ∷ 0x38CB ∷ 0xA50
    ∷ 0x1BD9 ∷ 0x6F66 ∷ 0x7EEF ∷ 0x4C74 ∷ 0x5DFD ∷ 0xB58B ∷ 0xA402 ∷ 0x9699 ∷ 0x8710 ∷ 0xF3AF
    ∷ 0xE226 ∷ 0xD0BD ∷ 0xC134 ∷ 0x39C3 ∷ 0x284A ∷ 0x1AD1 ∷ 0xB58 ∷ 0x7FE7 ∷ 0x6E6E ∷ 0x5CF5
    ∷ 0x4D7C ∷ 0xC60C ∷ 0xD785 ∷ 0xE51E ∷ 0xF497 ∷ 0x8028 ∷ 0x91A1 ∷ 0xA33A ∷ 0xB2B3 ∷ 0x4A44
    ∷ 0x5BCD ∷ 0x6956 ∷ 0x78DF ∷ 0xC60 ∷ 0x1DE9 ∷ 0x2F72 ∷ 0x3EFB ∷ 0xD68D ∷ 0xC704 ∷ 0xF59F
    ∷ 0xE416 ∷ 0x90A9 ∷ 0x8120 ∷ 0xB3BB ∷ 0xA232 ∷ 0x5AC5 ∷ 0x4B4C ∷ 0x79D7 ∷ 0x685E ∷ 0x1CE1
    ∷ 0xD68 ∷ 0x3FF3 ∷ 0x2E7A ∷ 0xE70E ∷ 0xF687 ∷ 0xC41C ∷ 0xD595 ∷ 0xA12A ∷ 0xB0A3 ∷ 0x8238
    ∷ 0x93B1 ∷ 0x6B46 ∷ 0x7ACF ∷ 0x4854 ∷ 0x59DD ∷ 0x2D62 ∷ 0x3CEB ∷ 0xE70 ∷ 0x1FF9 ∷ 0xF78F
    ∷ 0xE606 ∷ 0xD49D ∷ 0xC514 ∷ 0xB1AB ∷ 0xA022 ∷ 0x92B9 ∷ 0x8330 ∷ 0x7BC7 ∷ 0x6A4E ∷ 0x58D5
    ∷ 0x495C ∷ 0x3DE3 ∷ 0x2C6A ∷ 0x1EF1 ∷ 0xF78 ∷ []

abbrev pub crc8_table : List ℕ
crc8_table =
    0x0 ∷ 0x7 ∷ 0xE ∷ 0x9 ∷ 0x1C ∷ 0x1B ∷ 0x12 ∷ 0x15 ∷ 0x38 ∷ 0x3F ∷ 0x36 ∷ 0x31 ∷ 0x24 ∷ 0x23
    ∷ 0x2A ∷ 0x2D ∷ 0x70 ∷ 0x77 ∷ 0x7E ∷ 0x79 ∷ 0x6C ∷ 0x6B ∷ 0x62 ∷ 0x65 ∷ 0x48 ∷ 0x4F ∷ 0x46
    ∷ 0x41 ∷ 0x54 ∷ 0x53 ∷ 0x5A ∷ 0x5D ∷ 0xE0 ∷ 0xE7 ∷ 0xEE ∷ 0xE9 ∷ 0xFC ∷ 0xFB ∷ 0xF2 ∷ 0xF5
    ∷ 0xD8 ∷ 0xDF ∷ 0xD6 ∷ 0xD1 ∷ 0xC4 ∷ 0xC3 ∷ 0xCA ∷ 0xCD ∷ 0x90 ∷ 0x97 ∷ 0x9E ∷ 0x99 ∷ 0x8C
    ∷ 0x8B ∷ 0x82 ∷ 0x85 ∷ 0xA8 ∷ 0xAF ∷ 0xA6 ∷ 0xA1 ∷ 0xB4 ∷ 0xB3 ∷ 0xBA ∷ 0xBD ∷ 0xC7 ∷ 0xC0
    ∷ 0xC9 ∷ 0xCE ∷ 0xDB ∷ 0xDC ∷ 0xD5 ∷ 0xD2 ∷ 0xFF ∷ 0xF8 ∷ 0xF1 ∷ 0xF6 ∷ 0xE3 ∷ 0xE4 ∷ 0xED
    ∷ 0xEA ∷ 0xB7 ∷ 0xB0 ∷ 0xB9 ∷ 0xBE ∷ 0xAB ∷ 0xAC ∷ 0xA5 ∷ 0xA2 ∷ 0x8F ∷ 0x88 ∷ 0x81 ∷ 0x86
    ∷ 0x93 ∷ 0x94 ∷ 0x9D ∷ 0x9A ∷ 0x27 ∷ 0x20 ∷ 0x29 ∷ 0x2E ∷ 0x3B ∷ 0x3C ∷ 0x35 ∷ 0x32 ∷ 0x1F
    ∷ 0x18 ∷ 0x11 ∷ 0x16 ∷ 0x3 ∷ 0x4 ∷ 0xD ∷ 0xA ∷ 0x57 ∷ 0x50 ∷ 0x59 ∷ 0x5E ∷ 0x4B ∷ 0x4C ∷ 0x45
    ∷ 0x42 ∷ 0x6F ∷ 0x68 ∷ 0x61 ∷ 0x66 ∷ 0x73 ∷ 0x74 ∷ 0x7D ∷ 0x7A ∷ 0x89 ∷ 0x8E ∷ 0x87 ∷ 0x80
    ∷ 0x95 ∷ 0x92 ∷ 0x9B ∷ 0x9C ∷ 0xB1 ∷ 0xB6 ∷ 0xBF ∷ 0xB8 ∷ 0xAD ∷ 0xAA ∷ 0xA3 ∷ 0xA4 ∷ 0xF9
    ∷ 0xFE ∷ 0xF7 ∷ 0xF0 ∷ 0xE5 ∷ 0xE2 ∷ 0xEB ∷ 0xEC ∷ 0xC1 ∷ 0xC6 ∷ 0xCF ∷ 0xC8 ∷ 0xDD ∷ 0xDA
    ∷ 0xD3 ∷ 0xD4 ∷ 0x69 ∷ 0x6E ∷ 0x67 ∷ 0x60 ∷ 0x75 ∷ 0x72 ∷ 0x7B ∷ 0x7C ∷ 0x51 ∷ 0x56 ∷ 0x5F
    ∷ 0x58 ∷ 0x4D ∷ 0x4A ∷ 0x43 ∷ 0x44 ∷ 0x19 ∷ 0x1E ∷ 0x17 ∷ 0x10 ∷ 0x5 ∷ 0x2 ∷ 0xB ∷ 0xC ∷ 0x21
    ∷ 0x26 ∷ 0x2F ∷ 0x28 ∷ 0x3D ∷ 0x3A ∷ 0x33 ∷ 0x34 ∷ 0x4E ∷ 0x49 ∷ 0x40 ∷ 0x47 ∷ 0x52 ∷ 0x55
    ∷ 0x5C ∷ 0x5B ∷ 0x76 ∷ 0x71 ∷ 0x78 ∷ 0x7F ∷ 0x6A ∷ 0x6D ∷ 0x64 ∷ 0x63 ∷ 0x3E ∷ 0x39 ∷ 0x30
    ∷ 0x37 ∷ 0x22 ∷ 0x25 ∷ 0x2C ∷ 0x2B ∷ 0x6 ∷ 0x1 ∷ 0x8 ∷ 0xF ∷ 0x1A ∷ 0x1D ∷ 0x14 ∷ 0x13 ∷ 0xAE
    ∷ 0xA9 ∷ 0xA0 ∷ 0xA7 ∷ 0xB2 ∷ 0xB5 ∷ 0xBC ∷ 0xBB ∷ 0x96 ∷ 0x91 ∷ 0x98 ∷ 0x9F ∷ 0x8A ∷ 0x8D
    ∷ 0x84 ∷ 0x83 ∷ 0xDE ∷ 0xD9 ∷ 0xD0 ∷ 0xD7 ∷ 0xC2 ∷ 0xC5 ∷ 0xCC ∷ 0xCB ∷ 0xE6 ∷ 0xE1 ∷ 0xE8
    ∷ 0xEF ∷ 0xFA ∷ 0xFD ∷ 0xF4 ∷ 0xF3 ∷ []
